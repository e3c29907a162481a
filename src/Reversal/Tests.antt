-- ===== src/Reversal/Tests.antt =====
-- A touch of a support (stockanalyzer/analysis/reversal.py).
use stock_graph_analyzer.Base.{◌≡◌, refl, true, some, none, [], ◌∷◌, is_some, ◌*◌}
use stock_graph_analyzer.Base.Int.{ℤ, ◌+ℤ◌, ◌-ℤ◌}
use stock_graph_analyzer.Float.{lit}
use stock_graph_analyzer.Float.Fixed.{fixed_float, round_to, floor_to}
use stock_graph_analyzer.Session.{Instant, market_phase, is_weekday}
use stock_graph_analyzer.Signals.{bull}
use stock_graph_analyzer.Reversal.{
  DayCard, ReversalConfig, with_trend, touch, support_candidates, nearest_support, reversed_up,
  trend_gate, reversal_signal,
}

abbrev card : DayCard ℤ
card = record {
  session_low = some (lit 100 0);
  range_position_pct = some (lit 10 0);
  day_change_pct = some (lit 1 0);
  supports = lit 100 0 ∷ lit 90 0 ∷ [];
  battle_zones = [];
  next_target = none;
}

abbrev config : ReversalConfig
config = record { trend_mode = with_trend; entry_mode = touch }

-- Wednesday, noon
abbrev asof : Instant
asof = record { weekday = 2; time = 720 * 60_000_000 }

fires_at_support :
    is_some (reversal_signal card none (lit 1002 1) (some bull) (some (lit 99 0)) asof config)
    ≡ true
unfolding reversal_signal nearest_support support_candidates reversed_up trend_gate market_phase
    is_weekday round_to floor_to ◌+ℤ◌ ◌-ℤ◌
fires_at_support = refl
