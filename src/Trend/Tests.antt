-- ===== src/Trend/Tests.antt =====
-- Trend changes on concrete signals (stockanalyzer/analysis/trend_change.py).
use stock_graph_analyzer.Base.{
  ◌⊎◌, All, any, false, arith, ◌≡◌, refl, true, List, [], ◌∷◌, codes, text_eq,
}
use stock_graph_analyzer.Base.Int.{ℤ, pos, negsuc, ◌+ℤ◌, ◌-ℤ◌}
use stock_graph_analyzer.Float.{lit, ◌⊕◌, ◌≤?◌}
use stock_graph_analyzer.Float.Fixed.{fixed_float, Fixed-IsOrdered, round_to, floor_to}
use stock_graph_analyzer.Signals.{bull, bear}
use stock_graph_analyzer.Trend.{
  Signal, make_signal, is_trigger, pool_of, total, assess_trend_change,
}
use stock_graph_analyzer.Trend.Pool.{IsPool, is_counter}
use stock_graph_analyzer.Trend.Assessed.{IsAssessed, Turns, assess_trend_change-IsAssessed}

-- a strength of 3 is clamped to 1
abbrev uptrend : Signal ℤ
uptrend = make_signal (codes "trend") bull (lit 3 0) (codes "up")

abbrev signals : List (Signal ℤ)
signals =
    make_signal (codes "golden_cross") bull (lit 9 1) (codes "cross")
    ∷ make_signal (codes "double_top") bear (lit 1 0) (codes "two tops")
    ∷ make_signal (codes "rsi") bear (lit 1 0) (codes "overbought")
    ∷ []

-- the golden cross agrees with the trend and does not count
top_warns : (assess_trend_change uptrend signals).reasons ≡ codes "two tops" ∷ []
unfolding assess_trend_change pool_of total make_signal is_trigger text_eq round_to floor_to ◌+ℤ◌
    ◌-ℤ◌
top_warns = refl

top_likely : (assess_trend_change uptrend signals).likely ≡ true
unfolding assess_trend_change pool_of total make_signal is_trigger text_eq round_to floor_to ◌+ℤ◌
    ◌-ℤ◌
top_likely = refl

Fixed-add_nonneg :
    (x y : ℤ) → (lit 0 0 ≤? x) ≡ true → (lit 0 0 ≤? y) ≡ true → (lit 0 0 ≤? x ⊕ y) ≡ true
unfolding ◌+ℤ◌
Fixed-add_nonneg (pos m) (pos n) h k = ground arith
Fixed-add_nonneg (pos m) (negsuc n) h k = ground arith
Fixed-add_nonneg (negsuc m) y h k = ground arith

signals_nonneg : All (λ (s : Signal ℤ). (lit 0 0 ≤? s.strength) ≡ true) signals
unfolding make_signal
signals_nonneg = (refl, (refl, (refl, tt)))

assess_trend_change-IsAssessed_example :
    IsPool uptrend.direction signals (pool_of uptrend.direction signals)
    × ((any (is_counter uptrend.direction) signals ≡ false)
        ⊎ Turns uptrend.direction (assess_trend_change uptrend signals))
    × IsAssessed (pool_of uptrend.direction signals) (assess_trend_change uptrend signals)
assess_trend_change-IsAssessed_example =
    assess_trend_change-IsAssessed Fixed-IsOrdered Fixed-add_nonneg uptrend signals signals_nonneg
