-- ===== src/Backtest/Tests.antt =====
-- The counterfactual fill of backtest.py on concrete bars.
use stock_graph_analyzer.Base.{◌≡◌, refl, none, some, List, [], ◌∷◌, ℕ}
use stock_graph_analyzer.Base.Int.{ℤ, ◌-ℤ◌}
use stock_graph_analyzer.Float.Fixed.{fixed_float}
use stock_graph_analyzer.Trades.Sample.{dollars}
use stock_graph_analyzer.Papertrade.{
  target_hit, not_triggered, DailyBar, Proposition, judge_outcome,
}
use stock_graph_analyzer.Backtest.{judge_close_fill}
use stock_graph_analyzer.Backtest.Fill.{judge_close_fill-judge_outcome}

abbrev plan : Proposition ℤ
plan = record {
  entry = dollars 100;
  stop = dollars 95;
  target = dollars 110;
  trigger = some (dollars 103);
  horizon_days = 3;
}

abbrev daily : ℕ → ℕ → ℕ → DailyBar ℤ
daily high low close = record { high = dollars high; low = dollars low; close = dollars close }

-- a wick through the trigger, a close beyond it, and the target
abbrev bars : List (DailyBar ℤ)
bars = daily 105 98 101 ∷ daily 106 102 104 ∷ daily 112 103 109 ∷ []

filled_at_close : (judge_close_fill bars plan none).status ≡ target_hit
unfolding judge_close_fill ◌-ℤ◌
filled_at_close = refl

gave_up : (judge_close_fill bars plan (some 1)).status ≡ not_triggered
unfolding judge_close_fill ◌-ℤ◌
gave_up = refl

judge_close_fill-judge_outcome_example : judge_close_fill bars plan none ≡ judge_outcome bars plan
judge_close_fill-judge_outcome_example = judge_close_fill-judge_outcome bars plan
