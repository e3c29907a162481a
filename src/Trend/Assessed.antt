-- ===== src/Trend/Assessed.antt =====
-- What the trend change of stockanalyzer/analysis/trend_change.py rests on.
use mathlib.Core.Path.{subst}
use stock_graph_analyzer.Base.{
  any, ap, sym, ◌∙◌, ◌≡◌, refl, true, false, ◌&&◌, ◌⊎◌, inl, inr, List, [], ◌∷◌, filter, All, arith,
  Bool-cases,
}
use stock_graph_analyzer.Float.{Float, IsOrdered, ◌⊕◌, ◌≤?◌, ◌≥?◌, ◌=?◌, lit, max, round}
use stock_graph_analyzer.Float.Order.{min-le}
use stock_graph_analyzer.Signals.{Direction, bull, bear, neutral, TrendChange}
use stock_graph_analyzer.Trend.{
  Signal, direction_eq, pool_of, reasons_of, sum_from, total, calm_change, stacked, weigh_change,
  weigh_pool, assess_trend_change,
}
use stock_graph_analyzer.Trend.Pool.{
  IsPool, against, without, is_counter, All-filter_keeps, pool_of-IsPool, no_agreeing,
}

absurd_of : {A : Type 0} → true ≡ false → A
absurd_of e = cc e

abbrev opposite : Direction → Direction
opposite bull = bear
opposite bear = bull
opposite neutral = neutral

module _ {F : Type 0} ⦃f : Float F⦄ where
  pub data IsAssessed (pool : List (Signal F)) : TrendChange F → Type 0 where
    calm :
        (pool ≡ []) ⊎ ((total bull pool =? total bear pool && (total bear pool =? lit 0 0)) ≡ true)
        → IsAssessed pool calm_change
    changes :
        (d : Direction) (score : F)
        → direction_eq d neutral ≡ false
        → (total d pool ≥? total (opposite d) pool) ≡ true
        → score ≡ stacked (max (total bull pool) (total bear pool)) pool
        → (score ≤? lit 1 0) ≡ true
        → IsAssessed pool record {
          likely = score ≥? lit 5 1;
          direction = d;
          score = round score 3;
          reasons = reasons_of d pool;
        }

  -- neutral, or another direction than the trend's own
  abbrev pub Turns : Direction → TrendChange F → Type 0
  Turns trend change = (change.direction ≡ neutral) ⊎ (direction_eq change.direction trend ≡ false)

  module _ (order : IsOrdered F) where
    weigh_change-IsAssessed :
        (pool : List (Signal F))
        → IsAssessed pool (weigh_change (total bull pool) (total bear pool) pool)
    weigh_change-IsAssessed pool =
        let score = stacked (max (total bull pool) (total bear pool)) pool in
        let small : (score ≤? lit 1 0) ≡ true = min-le order (lit 1 0) _ in
        elim (Bool-cases (total bull pool =? total bear pool && (total bear pool =? lit 0 0))) [
          | inl e ↦ rw e (calm (inr e))
          | inr e ↦ elim (Bool-cases (total bull pool ≥? total bear pool)) [
            | inl up ↦ rw (e, up) (changes bull score refl up refl small)
            | inr down ↦
                rw (e, down)
                  (changes bear score refl
                    (ground (arith, order.le_total (total bull pool) (total bear pool))) refl small)
          ]
        ]

    weigh_pool-IsAssessed : (pool : List (Signal F)) → IsAssessed pool (weigh_pool pool)
    weigh_pool-IsAssessed [] = calm (inl refl)
    weigh_pool-IsAssessed (s ∷ ss) = weigh_change-IsAssessed (s ∷ ss)

    module _
        (add_nonneg : (x y : F)
          → (lit 0 0 ≤? x) ≡ true
          → (lit 0 0 ≤? y) ≡ true
          → (lit 0 0 ≤? x ⊕ y) ≡ true) where
      sum_from_nonneg :
          (sum : F) (pool : List (Signal F))
          → (lit 0 0 ≤? sum) ≡ true
          → All (λ s. (lit 0 0 ≤? s.strength) ≡ true) pool
          → (lit 0 0 ≤? sum_from sum pool) ≡ true
      sum_from_nonneg sum [] h hs = h
      sum_from_nonneg sum (s ∷ ss) h (p, ps) =
          sum_from_nonneg (sum ⊕ s.strength) ss (add_nonneg sum s.strength h p) ps

      total_nonneg :
          (d : Direction) (pool : List (Signal F))
          → All (λ s. (lit 0 0 ≤? s.strength) ≡ true) pool
          → (lit 0 0 ≤? total d pool) ≡ true
      unfolding total
      total_nonneg d pool h =
          sum_from_nonneg (lit 0 0) (filter (λ s. direction_eq s.direction d) pool)
            (order.le_refl (lit 0 0))
            (All-filter_keeps (λ s. (lit 0 0 ≤? s.strength) ≡ true)
              (λ s. direction_eq s.direction d) pool h)

      total-agreeing :
          (trend : Direction) (signals : List (Signal F))
          → total trend (filter (is_counter trend) signals) ≡ lit 0 0
      unfolding total
      total-agreeing trend signals = ap (sum_from (lit 0 0)) (no_agreeing trend signals)

      counters_nonneg :
          (trend : Direction) (signals pool : List (Signal F))
          → pool ≡ filter (is_counter trend) signals
          → All (λ s. (lit 0 0 ≤? s.strength) ≡ true) signals
          → All (λ s. (lit 0 0 ≤? s.strength) ≡ true) pool
      counters_nonneg trend signals pool e h =
          subst (All (λ s. (lit 0 0 ≤? s.strength) ≡ true)) (sym e)
            (All-filter_keeps (λ s. (lit 0 0 ≤? s.strength) ≡ true) (is_counter trend) signals h)

      bull-Turns :
          (bullish bearish : F) (pool : List (Signal F))
          → bullish ≡ lit 0 0
          → (lit 0 0 ≤? bearish) ≡ true
          → Turns bull (weigh_change bullish bearish pool)
      bull-Turns bullish bearish pool z h =
          elim (Bool-cases (bullish =? bearish && (bearish =? lit 0 0))) [
            | inl e ↦ rw e (inl refl)
            | inr e ↦ elim (Bool-cases (bullish ≥? bearish)) [
              | inr down ↦ rw (e, down) (inr refl)
              | inl up ↦
                  let below : (bearish ≤? lit 0 0) ≡ true =
                    subst (λ b. (bearish ≤? b) ≡ true) z up in
                  let same : (bullish =? bearish) ≡ true =
                    subst (λ b. (b =? bearish) ≡ true) (sym z)
                      (ground (arith, order.eq_both_le (lit 0 0) bearish)) in
                  let none : (bearish =? lit 0 0) ≡ true =
                    ground (arith, order.eq_both_le bearish (lit 0 0)) in
                  absurd_of (ground arith)
            ]
          ]

      bear-Turns :
          (bullish bearish : F) (pool : List (Signal F))
          → bearish ≡ lit 0 0
          → (lit 0 0 ≤? bullish) ≡ true
          → Turns bear (weigh_change bullish bearish pool)
      bear-Turns bullish bearish pool z h =
          let up : (bullish ≥? bearish) ≡ true = subst (λ b. (b ≤? bullish) ≡ true) (sym z) h in
          elim (Bool-cases (bullish =? bearish && (bearish =? lit 0 0))) [
            | inl e ↦ rw e (inl refl)
            | inr e ↦ rw (e, up) (inr refl)
          ]

      neutral-Turns :
          (bullish bearish : F) (pool : List (Signal F))
          → Turns neutral (weigh_change bullish bearish pool)
      neutral-Turns bullish bearish pool =
          elim (Bool-cases (bullish =? bearish && (bearish =? lit 0 0))) [
            | inl e ↦ rw e (inl refl)
            | inr e ↦ elim (Bool-cases (bullish ≥? bearish)) [
              | inl up ↦ rw (e, up) (inr refl)
              | inr down ↦ rw (e, down) (inr refl)
            ]
          ]

      weigh_pool-Turns :
          (trend : Direction) (signals pool : List (Signal F))
          → pool ≡ filter (is_counter trend) signals
          → All (λ s. (lit 0 0 ≤? s.strength) ≡ true) signals
          → Turns trend (weigh_pool pool)
      weigh_pool-Turns trend signals [] e h = inl refl
      weigh_pool-Turns bull signals (s ∷ ss) e h =
          bull-Turns (total bull (s ∷ ss)) (total bear (s ∷ ss)) (s ∷ ss)
            (ap (total bull) e ∙ total-agreeing bull signals)
            (total_nonneg bear (s ∷ ss) (counters_nonneg bull signals (s ∷ ss) e h))
      weigh_pool-Turns bear signals (s ∷ ss) e h =
          bear-Turns (total bull (s ∷ ss)) (total bear (s ∷ ss)) (s ∷ ss)
            (ap (total bear) e ∙ total-agreeing bear signals)
            (total_nonneg bull (s ∷ ss) (counters_nonneg bear signals (s ∷ ss) e h))
      weigh_pool-Turns neutral signals (s ∷ ss) e h =
          neutral-Turns (total bull (s ∷ ss)) (total bear (s ∷ ss)) (s ∷ ss)

      assess-Turns :
          (trend : Direction) (signals pool : List (Signal F))
          → IsPool trend signals pool
          → All (λ s. (lit 0 0 ≤? s.strength) ≡ true) signals
          → (any (is_counter trend) signals ≡ false) ⊎ Turns trend (weigh_pool pool)
      assess-Turns trend signals pool (against some e) h =
          inr (weigh_pool-Turns trend signals pool e h)
      assess-Turns trend signals pool (without e q) h = inl e

      -- Where sums of what is not negative are not negative, and the strengths are not: a trend change
      -- counts all triggers against the current trend, or all triggers where there is none against it.
      -- Where there is one against it, the change never goes the trend's own way: it is neutral or of
      -- another direction. It is neutral, unlikely and of score zero without a trigger or where both
      -- directions have strength zero. Otherwise it goes to the direction whose counted triggers are together at least as
      -- strong as the opposite's, gives the evidence of exactly these, has a score of at most 1 before the
      -- rounding, and is likely from 0.5 on.
      pub assess_trend_change-IsAssessed :
          (current : Signal F) (signals : List (Signal F))
          → All (λ s. (lit 0 0 ≤? s.strength) ≡ true) signals
          → IsPool current.direction signals (pool_of current.direction signals)
            × ((any (is_counter current.direction) signals ≡ false)
                ⊎ Turns current.direction (assess_trend_change current signals))
            × IsAssessed (pool_of current.direction signals) (assess_trend_change current signals)
      unfolding assess_trend_change
      assess_trend_change-IsAssessed current signals h =
          let pool = pool_of-IsPool current.direction signals in
          (
            pool,
            assess-Turns current.direction signals (pool_of current.direction signals) pool h,
            weigh_pool-IsAssessed (pool_of current.direction signals),
          )
