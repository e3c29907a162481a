-- ===== src/Papertrade.antt =====
-- The outcome of a paper trade: `judge_outcome` of stockanalyzer/papertrade.py.
pub mod Final
pub mod Journal
pub mod Report
pub mod Tests
use stock_graph_analyzer.Base.{
  Option, some, none, List, [], ◌∷◌, if◌then◌else◌, ℕ, suc, leb, Bool, true, false,
}
use stock_graph_analyzer.Float.{Float, ◌⊖◌, ◌⊗◌, ◌⊘◌, ◌≤?◌, ◌≥?◌, lit, round}

pub data PaperStatus : Type 0 where
  still_open target_hit stop_hit expired not_triggered : PaperStatus

-- `_FINAL`
abbrev pub is_final : PaperStatus → Bool
is_final still_open = false
is_final target_hit = true
is_final stop_hit = true
is_final expired = true
is_final not_triggered = true

-- a daily (high, low, close) bar
pub record DailyBar (F : Type 0) : Type 0 where
  pub high : F
  pub low : F
  pub close : F

pub record Judged (F : Type 0) : Type 0 where
  pub status : PaperStatus
  pub result_pct : F

-- what is judged
pub record Proposition (F : Type 0) : Type 0 where
  pub entry : F
  pub stop : F
  pub target : F
  pub trigger : Option F
  pub horizon_days : ℕ

module _ {F : Type 0} ⦃f : Float F⦄ where
  -- `round((x / entry - 1) * 100, 1)`
  abbrev pub percent : F → F → F
  percent x entry = round ((x ⊘ entry ⊖ lit 1 0) ⊗ lit 100 0) 1

  -- The loop once the trade is active, filled at `entry`; `last` is the close before the bars.
  unfoldable pub judge_active : Proposition F → F → ℕ → F → List (DailyBar F) → Judged F
  judge_active p entry active_days last [] = record {
    status = still_open;
    result_pct = percent last entry;
  }
  judge_active p entry active_days last (b ∷ bars) =
      let rest = judge_active p entry (suc active_days) b.close bars in
      if b.low ≤? p.stop
      then record { status = stop_hit; result_pct = percent p.stop entry }
      else if b.high ≥? p.target
      then record { status = target_hit; result_pct = percent p.target entry }
      else if leb p.horizon_days (suc active_days)
      then record { status = expired; result_pct = percent b.close entry }
      else rest

  -- The loop while the trade waits for a close beyond the trigger.
  unfoldable pub judge_waiting : Proposition F → F → ℕ → List (DailyBar F) → Judged F
  unfolding judge_active
  judge_waiting p trigger waited [] = record { status = still_open; result_pct = lit 0 0 }
  judge_waiting p trigger waited (b ∷ bars) =
      let rest = judge_waiting p trigger (suc waited) bars in
      if b.close ≥? trigger
      then judge_active p b.close 1 b.close bars
      else if leb p.horizon_days (suc waited)
      then record { status = not_triggered; result_pct = lit 0 0 }
      else rest

  unfoldable pub judge_from : Proposition F → Option F → DailyBar F → List (DailyBar F) → Judged F
  unfolding judge_waiting
  judge_from p none b bars = judge_active p p.entry 0 b.close (b ∷ bars)
  judge_from p (some trigger) b bars = judge_waiting p trigger 0 (b ∷ bars)

  unfoldable pub judge_outcome : List (DailyBar F) → Proposition F → Judged F
  unfolding judge_from
  judge_outcome [] p = record { status = still_open; result_pct = lit 0 0 }
  judge_outcome (b ∷ bars) p = judge_from p p.trigger b bars
