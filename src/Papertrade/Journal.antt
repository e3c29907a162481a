-- ===== src/Papertrade/Journal.antt =====
-- The journal of propositions: `insert_paper_trade` and `update_paper_status` of
-- stockanalyzer/data/store.py, `evaluate_all` of stockanalyzer/papertrade.py.
pub mod Laws
use stock_graph_analyzer.Base.{
  Option, some, none, List, [], ◌∷◌, ◌++◌, if◌then◌else◌, ℕ, ltb, ◌==◌, Bool, true, false, not,
  ◌&&◌, ◌||◌, Text, text_eq, any, filter, map,
}
use stock_graph_analyzer.Float.{Float, ◌⊖◌, ◌⊗◌, ◌≥?◌, ◌=?◌, lit}
use stock_graph_analyzer.Papertrade.{
  PaperStatus, still_open, target_hit, stop_hit, expired, not_triggered, is_final, DailyBar, Judged,
  Proposition, judge_outcome,
}

-- a row of `paper_trades`
pub record PaperTrade (F : Type 0) : Type 0 where
  pub id : ℕ
  pub ts : F
  pub date : Text
  pub ticker : Text
  pub level : ℕ
  pub score : Option ℕ
  pub label : Option Text
  pub kind : Option Text
  pub setup : Option Text
  pub plan : Proposition F
  pub rr : Option F
  pub guidance : Option Text
  pub status : PaperStatus
  pub result_pct : F

-- a bar of a daily frame with its day
pub record DatedBar (F : Type 0) : Type 0 where
  pub day : ℕ
  pub bar : DailyBar F

-- the returned records, and the table after the writes
pub record Evaluated (F : Type 0) : Type 0 where
  pub records : List (PaperTrade F)
  pub table : List (PaperTrade F)

abbrev pub same_status : PaperStatus → PaperStatus → Bool
same_status still_open still_open = true
same_status target_hit target_hit = true
same_status stop_hit stop_hit = true
same_status expired expired = true
same_status not_triggered not_triggered = true
same_status _ _ = false

module _ {F : Type 0} ⦃f : Float F⦄ where
  -- `hours = 24.0`
  abbrev duplicate_hours : F
  duplicate_hours = lit 24 0

  abbrev pub cutoff : F → F
  cutoff ts = ts ⊖ duplicate_hours ⊗ lit 3600 0

  abbrev pub is_duplicate : Text → ℕ → F → PaperTrade F → Bool
  is_duplicate ticker level ts r =
      text_eq r.ticker ticker && (r.level == level) && (r.ts ≥? cutoff ts)

  unfoldable pub recent_paper_duplicate : Text → ℕ → F → List (PaperTrade F) → Bool
  recent_paper_duplicate ticker level ts table = any (is_duplicate ticker level ts) table

  unfoldable pub insert_paper_trade :
      PaperTrade F → List (PaperTrade F) → List (PaperTrade F) × Bool
  unfolding recent_paper_duplicate
  insert_paper_trade rec table =
      if recent_paper_duplicate rec.ticker rec.level rec.ts table
      then (table, false)
      else (table ++ (rec ∷ []), true)

  -- `UPDATE paper_trades SET status=?, result_pct=? WHERE id=?`
  unfoldable pub update_paper_status : ℕ → Judged F → List (PaperTrade F) → List (PaperTrade F)
  update_paper_status rowid j table =
      map
        (λ r.
          if r.id == rowid then record r { status = j.status; result_pct = j.result_pct } else r)
        table

  -- `_bars_after`; `alert_day` is the local calendar day of a timestamp
  unfoldable pub bars_after : (F → ℕ) → List (DatedBar F) → F → List (DailyBar F)
  bars_after alert_day df alert_ts =
      map (λ (d : DatedBar F). d.bar) (filter (λ d. ltb (alert_day alert_ts) d.day) df)

  abbrev is_news : Judged F → PaperTrade F → Bool
  is_news j r = not (same_status j.status r.status) || not (j.result_pct =? r.result_pct)

  abbrev judged_by : Judged F → PaperTrade F → Option (Judged F)
  judged_by j r = if is_news j r then some j else none

  -- without bars of the ticker the record is passed over
  unfoldable pub judged_on : (F → ℕ) → Option (List (DatedBar F)) → PaperTrade F → Option (Judged F)
  unfolding bars_after judge_outcome
  judged_on alert_day none r = none
  judged_on alert_day (some []) r = none
  judged_on alert_day (some (d ∷ df)) r =
      judged_by (judge_outcome (bars_after alert_day (d ∷ df) r.ts) r.plan) r

  -- what `evaluate_all` finds new on a record: nothing, or a status and a result
  unfoldable pub evaluate_record :
      (F → ℕ) → (Text → Option (List (DatedBar F))) → PaperTrade F → Option (Judged F)
  unfolding judged_on
  evaluate_record alert_day frames r =
      if is_final r.status then none else judged_on alert_day (frames r.ticker) r

  abbrev pub set_judged : PaperTrade F → Option (Judged F) → PaperTrade F
  set_judged r none = r
  set_judged r (some j) = record r { status = j.status; result_pct = j.result_pct }

  abbrev pub write_judged : ℕ → Option (Judged F) → List (PaperTrade F) → List (PaperTrade F)
  write_judged rowid none table = table
  write_judged rowid (some j) table = update_paper_status rowid j table

  unfoldable pub evaluate_rows :
      (F → ℕ)
      → (Text → Option (List (DatedBar F)))
      → List (PaperTrade F)
      → List (PaperTrade F)
      → Evaluated F
  unfolding evaluate_record
  evaluate_rows alert_day frames [] table = record { records = []; table = table }
  evaluate_rows alert_day frames (r ∷ rs) table =
      let j = evaluate_record alert_day frames r in
      let rest = evaluate_rows alert_day frames rs (write_judged r.id j table) in
      record { records = set_judged r j ∷ rest.records; table = rest.table }

  unfoldable pub evaluate_all :
      (F → ℕ) → (Text → Option (List (DatedBar F))) → List (PaperTrade F) → Evaluated F
  unfolding evaluate_rows
  evaluate_all alert_day frames table = evaluate_rows alert_day frames table table
