-- ===== src/Backtest.antt =====
-- The counterfactual fill of backtest.py: `judge_close_fill`.
pub mod Fill
pub mod Tests
use stock_graph_analyzer.Base.{
  ℕ, zero, suc, ◌==◌, Option, some, none, List, [], ◌∷◌, if◌then◌else◌, leb,
}
use stock_graph_analyzer.Float.{Float, ◌≤?◌, ◌≥?◌, lit}
use stock_graph_analyzer.Papertrade.{
  DailyBar, Judged, Proposition, still_open, target_hit, stop_hit, expired, not_triggered, percent,
  judge_outcome,
}

-- `wait_days or horizon_days`
abbrev pub wait_or : Option ℕ → ℕ → ℕ
wait_or none horizon_days = horizon_days
wait_or (some wait_days) horizon_days = if wait_days == 0 then horizon_days else wait_days

module _ {F : Type 0} ⦃f : Float F⦄ where
  -- the loop after the fill at `entry`; `last` is the close before the bars
  unfoldable pub hold : Proposition F → F → ℕ → F → List (DailyBar F) → Judged F
  hold p entry active_days last [] = record { status = still_open; result_pct = percent last entry }
  hold p entry active_days last (b ∷ bars) =
      let rest = hold p entry (suc active_days) b.close bars in
      if b.low ≤? p.stop
      then record { status = stop_hit; result_pct = percent p.stop entry }
      else if b.high ≥? p.target
      then record { status = target_hit; result_pct = percent p.target entry }
      else if leb p.horizon_days (suc active_days)
      then record { status = expired; result_pct = percent b.close entry }
      else rest

  -- the loop until a close beyond the trigger, for at most `wait` bars
  unfoldable pub await_fill : Proposition F → F → ℕ → ℕ → List (DailyBar F) → Judged F
  unfolding hold
  await_fill p trigger wait waited [] = record { status = still_open; result_pct = lit 0 0 }
  await_fill p trigger wait waited (b ∷ bars) =
      let rest = await_fill p trigger wait (suc waited) bars in
      if b.close ≥? trigger
      then hold p b.close 1 b.close bars
      else if leb wait (suc waited)
      then record { status = not_triggered; result_pct = lit 0 0 }
      else rest

  abbrev pub fill_at : List (DailyBar F) → Proposition F → Option ℕ → Option F → Judged F
  fill_at bars p wait_days none = judge_outcome bars (record p { trigger = none })
  fill_at bars p wait_days (some trigger) =
      await_fill p trigger (wait_or wait_days p.horizon_days) 0 bars

  unfoldable pub judge_close_fill : List (DailyBar F) → Proposition F → Option ℕ → Judged F
  unfolding await_fill
  judge_close_fill bars p wait_days = fill_at bars p wait_days p.trigger
