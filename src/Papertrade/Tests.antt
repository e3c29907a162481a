-- ===== src/Papertrade/Tests.antt =====
-- The theorems about the journal (stockanalyzer/papertrade.py) at concrete propositions.
use stock_graph_analyzer.Base.{
  ◌≡◌, ◌≢◌, refl, none, some, Option, List, [], ◌∷◌, ◌++◌, ℕ, ◌*◌, codes, Text, text_eq, arith,
}
use stock_graph_analyzer.Base.Int.{ℤ, ◌-ℤ◌}
use stock_graph_analyzer.Float.Fixed.{fixed_float, Fixed-IsOrdered}
use stock_graph_analyzer.Trades.Sample.{dollars}
use stock_graph_analyzer.Papertrade.{
  still_open, target_hit, stop_hit, PaperStatus, DailyBar, Proposition, judge_outcome,
}
use stock_graph_analyzer.Papertrade.Final.{
  DecidedBy, judge_outcome_stable, judge_outcome_enough, judge_outcome-DecidedBy,
}
use stock_graph_analyzer.Papertrade.Journal.{PaperTrade, DatedBar, insert_paper_trade, evaluate_all}
use stock_graph_analyzer.Papertrade.Journal.Laws.{
  AllKept, IsSpaced, evaluate_all-again, insert_paper_trade-IsSpaced,
}
use stock_graph_analyzer.Papertrade.Report.{at_level, any_level, summarize}
use stock_graph_analyzer.Papertrade.Report.Laws.{IsReport, summarize-IsReport}

abbrev plan : Proposition ℤ
plan = record {
  entry = dollars 100;
  stop = dollars 95;
  target = dollars 110;
  trigger = none;
  horizon_days = 2;
}

abbrev daily : ℕ → ℕ → ℕ → DailyBar ℤ
daily high low close = record { high = dollars high; low = dollars low; close = dollars close }

-- a quiet day, and one that touches the stop and the target
abbrev bars : List (DailyBar ℤ)
bars = daily 105 98 101 ∷ daily 112 94 109 ∷ []

stop_first : (judge_outcome bars plan).status ≡ stop_hit
unfolding judge_outcome ◌-ℤ◌
stop_first = refl

judge_outcome_stable_example :
    judge_outcome (bars ++ (daily 120 90 118 ∷ [])) plan ≡ judge_outcome bars plan
unfolding judge_outcome ◌-ℤ◌
judge_outcome_stable_example =
    judge_outcome_stable plan bars (daily 120 90 118 ∷ []) (λ e. ground arith)

judge_outcome_enough_example : (judge_outcome (bars ++ bars) plan).status ≢ still_open
judge_outcome_enough_example = judge_outcome_enough plan (bars ++ bars) (omega arith) (omega arith)

judge_outcome-DecidedBy_example : DecidedBy plan (dollars 100) 0 bars (judge_outcome bars plan)
judge_outcome-DecidedBy_example = judge_outcome-DecidedBy plan bars refl

abbrev paper : ℕ → PaperStatus → PaperTrade ℤ
paper id status = record {
  id = id;
  ts = dollars (id * 100_000);
  date = codes "2026-07-20";
  ticker = codes "INTC";
  level = 70;
  score = some 72;
  label = none;
  kind = none;
  setup = none;
  plan = plan;
  rr = none;
  guidance = none;
  status = status;
  result_pct = dollars 0;
}

abbrev journal : List (PaperTrade ℤ)
journal = paper 1 target_hit ∷ paper 2 still_open ∷ []

abbrev alert_day : ℤ → ℕ
alert_day ts = 200

abbrev frames : Text → Option (List (DatedBar ℤ))
frames ticker = some (
    record { day = 200; bar = daily 101 99 100 }
    ∷ record { day = 201; bar = daily 112 97 109 }
    ∷ [])

evaluate_all-again_example :
    let once = (evaluate_all alert_day frames journal).records in
    ((evaluate_all alert_day frames once).records ≡ once) × AllKept journal once
evaluate_all-again_example = evaluate_all-again alert_day frames journal

insert_paper_trade-IsSpaced_example : IsSpaced (insert_paper_trade (paper 3 still_open) journal).0
unfolding ◌-ℤ◌ text_eq
insert_paper_trade-IsSpaced_example =
    insert_paper_trade-IsSpaced Fixed-IsOrdered (paper 3 still_open) journal ((refl, tt), (tt, tt))

summarize-IsReport_example :
    IsReport (at_level 60) journal (summarize journal).at_60
    × IsReport (at_level 70) journal (summarize journal).at_70
    × IsReport (at_level 80) journal (summarize journal).at_80
    × IsReport any_level journal (summarize journal).overall
summarize-IsReport_example = summarize-IsReport journal
