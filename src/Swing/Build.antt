-- ===== src/Swing/Build.antt =====
-- How the swing plan is built: `_build_side`, `_apply_emerging` and `build_swing_plan` of
-- stockanalyzer/explain/swing.py.
use stock_graph_analyzer.Base.{
  ◌++◌, Bool, true, false, not, ◌&&◌, ◌||◌, Option, some, none, List, [], ◌∷◌, if◌then◌else◌, ltb,
  length, any, is_some,
}
use stock_graph_analyzer.Float.{Float, ◌⊗◌, ◌⊘◌, ◌⊖◌, ◌≥?◌, ◌≤?◌, ◌>?◌, lit, truthy}
use stock_graph_analyzer.Frames.{Timeframe}
use stock_graph_analyzer.Verdict.{SwingPace}
use stock_graph_analyzer.Swing.{
  SwingBar, SwingReport, AllReports, report_at, daily_frames, last_of, PaceTuning, swing_pace,
  Stats, Geometry,
}
use stock_graph_analyzer.Swing.Levels.{Sides, merged_levels, absolute}
use stock_graph_analyzer.Swing.Volatility.{
  indicator_guards, macd_against, daily_atr, crash_regime, relative_volume,
}
use stock_graph_analyzer.Swing.Setup.{
  SwingSetup, is_countertrend, has_signal, confirms, ind_frame, ind_frames, detect_long_setup,
  detect_short_setup,
}
use stock_graph_analyzer.Swing.Long.{long_geometry}
use stock_graph_analyzer.Swing.Short.{short_geometry}
use stock_graph_analyzer.Swing.Emerging.{EmergingScore, emerging_max_bars, score_emerging}
use stock_graph_analyzer.Swing.Plan.{
  UseCase, buy, sell, own, Light, go_light, forming, low, SwingPlan, demanded, Gates, min_rr,
  volume_ok, tier_is_ok, price_below, is_within, trigger_is_near, beyond_target, reward_risk,
  assemble_plan, fast_names,
}
use stock_graph_analyzer.Swing.Checks.{SwingContext, SwingCheck, check_rows}
use stock_graph_analyzer.Swing.Score.{ScoreLabel, swing_score}

-- what a call of `_build_side` is about; `decision` is where `report` stands among the reports
pub record SideInput (F : Type 0) : Type 0 where
  pub report : SwingReport F
  pub decision : Option Timeframe
  pub reports : AllReports F
  pub price : F
  pub tuning : PaceTuning F
  pub context : SwingContext F
  pub atr_frac : F
  pub budget_frac : F

-- no plan for want of a price; `raised`: the demand score of no bar at all
pub data BuildResult (F : Type 0) : Type 0 where
  no_price raised : BuildResult F
  built : SwingPlan F → BuildResult F

abbrev pub is_sell : UseCase → Bool
is_sell sell = true
is_sell _ = false

abbrev pub is_go_light : Light → Bool
is_go_light go_light = true
is_go_light _ = false

module _ {F : Type 0} ⦃f : Float F⦄ where
  unfoldable pub side_levels : SideInput F → Sides F
  side_levels i = merged_levels i.report i.decision i.reports i.price (i.atr_frac ⊗ i.price)

  unfoldable pub side_setup : SideInput F → Bool → Option SwingSetup
  side_setup i short =
      let bars = i.report.bars in
      let ind = ind_frame i.reports ind_frames bars in
      if short
      then detect_short_setup i.report i.price bars (i.atr_frac ⊗ i.price) ind
      else detect_long_setup i.report i.price bars (i.atr_frac ⊗ i.price) ind

  unfoldable pub side_geometry : Stats F → SideInput F → Bool → Geometry F
  unfolding side_levels side_setup
  side_geometry stats i short =
      let sides = side_levels i in
      let countertrend = is_countertrend (side_setup i short) in
      let overext = (indicator_guards i.reports i.report.bars short).0 in
      if short
      then short_geometry stats i.price sides.1 (i.atr_frac ⊗ i.price) (i.budget_frac ⊗ i.price)
          i.tuning countertrend overext
      else long_geometry stats i.price sides.0 (i.atr_frac ⊗ i.price) (i.budget_frac ⊗ i.price)
          i.tuning countertrend overext

  -- the conditions that decide on `go` and `actionable`, for a geometry
  unfoldable pub side_gates : Stats F → SideInput F → Bool → Geometry F → Gates
  unfolding side_setup
  side_gates stats i short geom =
      let setup = side_setup i short in
      let ind = ind_frame i.reports ind_frames i.report.bars in
      let guards = indicator_guards i.reports i.report.bars short in
      let crash = crash_regime i.reports i.price geom.entry geom.target (not short) in
      let strong_downtrend =
        not short
        && (price_below i.price (last_of (λ b. b.sma50) ind)
            && price_below i.price (last_of (λ b. b.sma200) ind)) in
      record {
        kind = geom.kind;
        setup_present = is_some setup && not strong_downtrend;
        tier_ok = tier_is_ok (is_countertrend setup) i.context.investor_pct i.tuning;
        rr_ok = reward_risk geom ≥? min_rr;
        aim_ok = absolute (geom.target ⊖ geom.entry) ⊘ geom.entry ≥? i.tuning.min_move;
        vol_ok = volume_ok setup (relative_volume stats i.report.bars);
        strong_downtrend = strong_downtrend;
        earnings_block = is_within i.tuning.earnings_guard_days i.context.earnings_days;
        crash_block = crash.in_regime && crash.large_aim;
        overext = guards.0;
        adverse_trend = guards.1;
        against = macd_against i.reports short;
        trigger_near = trigger_is_near i.price i.atr_frac short geom geom.trigger;
      }

  -- the checklist and its score
  unfoldable pub side_score :
      SideInput F → Bool → Geometry F → Gates → F × ScoreLabel × List SwingCheck
  unfolding side_levels side_setup
  side_score i short geom gates =
      let sides = side_levels i in
      let countertrend = is_countertrend (side_setup i short) in
      let rr = reward_risk geom in
      let fast = any (λ n. has_signal n fast_names) i.report.signals in
      swing_score gates.setup_present countertrend rr geom (
        check_rows (not short) gates.setup_present countertrend rr geom (sides.0 ++ sides.1) fast
          i.report.bars i.reports i.tuning.earnings_guard_days i.context
          (crash_regime i.reports i.price geom.entry geom.target (not short)))

  unfoldable pub build_side : Stats F → SideInput F → Bool → SwingPlan F
  unfolding side_geometry side_gates side_setup side_levels side_score assemble_plan
  build_side stats i short =
      let geom = side_geometry stats i short in
      let sides = side_levels i in
      let gates = side_gates stats i short geom in
      assemble_plan (side_setup i short) short geom gates
        (beyond_target short sides.0 sides.1 geom.target) i.atr_frac
        (length (confirms short i.report.signals))
        (any (λ n. has_signal n fast_names) i.report.signals) (side_score i short geom gates)

  -- `_longest_daily`
  abbrev pub longer : List (SwingBar F) → Option (SwingReport F) → List (SwingBar F)
  longer best none = best
  longer best (some rep) = if ltb (length best) (length rep.bars) then rep.bars else best

  abbrev pub longest_daily : AllReports F → List Timeframe → List (SwingBar F) → List (SwingBar F)
  longest_daily reports [] best = best
  longest_daily reports (tf ∷ tfs) best =
      longest_daily reports tfs (longer best (report_at reports tf))

  -- with the score, or where it raises
  unfoldable pub with_emerging : Option (EmergingScore F) → SwingPlan F → BuildResult F
  with_emerging none plan = raised
  with_emerging (some es) plan = built (
      if es.extended
      then record plan {
        emerging = some es;
        score = es.score;
        score_label = demanded es.label;
        confidence = low;
        actionable = false;
        go = false;
        light = if plan.go || is_go_light plan.light then forming else plan.light;
      }
      else record plan {
        emerging = some es;
        score = es.score;
        score_label = demanded es.label;
        confidence = low;
      })

  unfoldable pub apply_emerging : SideInput F → SwingPlan F → BuildResult F
  unfolding with_emerging
  apply_emerging i plan =
      let daily = longest_daily i.reports daily_frames i.report.bars in
      if ltb (length daily) emerging_max_bars
      then with_emerging (score_emerging daily i.context.offering_price i.context.vwap) plan
      else built plan

  -- the price: the override if it is positive, or else the last close
  abbrev last_or_zero : Option F → F
  last_or_zero none = lit 0 0
  last_or_zero (some last) = last

  abbrev pub plan_price : Option F → Option F → F
  plan_price none last = last_or_zero last
  plan_price (some over) last = if truthy over && (over >? lit 0 0) then over else last_or_zero last

  abbrev pub side_input :
      Stats F
      → SwingReport F
      → Option Timeframe
      → SwingPace
      → F
      → AllReports F
      → SwingContext F
      → SideInput F
  side_input stats report decision pace price reports context =
      let atr = daily_atr stats reports report.bars price in
      record {
        report = report;
        decision = decision;
        reports = reports;
        price = price;
        tuning = swing_pace pace;
        context = context;
        atr_frac = atr.0;
        budget_frac = atr.1;
      }

  abbrev pub finish_plan : UseCase → SideInput F → SwingPlan F → BuildResult F
  finish_plan sell i plan = built plan
  finish_plan buy i plan = apply_emerging i plan
  finish_plan own i plan = apply_emerging i plan

  unfoldable pub build_swing_plan :
      Stats F
      → SwingReport F
      → Option Timeframe
      → UseCase
      → SwingPace
      → Option F
      → AllReports F
      → SwingContext F
      → BuildResult F
  unfolding build_side apply_emerging
  build_swing_plan stats report decision usecase pace over reports context =
      let price = plan_price over report.last_close in
      let i = side_input stats report decision pace price reports context in
      if price ≤? lit 0 0
      then no_price
      else finish_plan usecase i (build_side stats i (is_sell usecase))
