-- ===== src/Swing/Orders.antt =====
-- When a swing plan of stockanalyzer/explain/swing.py is an order, and when it is only watched.
pub mod Gates
pub mod Entry
use stock_graph_analyzer.Base.{
  ℕ, ◌≡◌, refl, ap, sym, Bool, true, false, not, ◌&&◌, ◌||◌, Option, some, none, List, [], ◌∷◌, inl,
  inr, arith, Bool-cases, Option-cases, if◌then◌else◌, ltb, length, ◌⊎◌, is_some,
}
use stock_graph_analyzer.Float.{Float, IsOrdered, ◌≥?◌, ◌≤?◌, ◌⊖◌, ◌⊘◌, ◌⊗◌, lit, round}
use stock_graph_analyzer.Frames.{Timeframe}
use stock_graph_analyzer.Verdict.{SwingPace}
use stock_graph_analyzer.Swing.{
  SwingBar, SwingReport, AllReports, Stats, Geometry, PlanKind, immediate, breakout_wait, no_trade,
  PaceTuning, daily_frames,
}
use stock_graph_analyzer.Swing.Levels.{absolute}
use stock_graph_analyzer.Swing.Aims.Long
use stock_graph_analyzer.Swing.Aims.Short
use stock_graph_analyzer.Swing.Setup.{is_countertrend}
use stock_graph_analyzer.Swing.Volatility.{indicator_guards, macd_against, crash_regime}
use stock_graph_analyzer.Swing.Long.{long_geometry}
use stock_graph_analyzer.Swing.Short.{short_geometry}
use stock_graph_analyzer.Swing.Emerging.{EmergingScore, score_emerging, emerging_max_bars}
use stock_graph_analyzer.Swing.Checks.{SwingContext}
use stock_graph_analyzer.Swing.Plan.{
  UseCase, buy, sell, own, Light, go_light, forming, no_light, Confidence, low, SwingPlan, demanded,
  is_go, is_actionable, light_of, reward_risk, min_rr, is_within, trigger_is_near, assemble_plan,
  is_immediate, waits_for_breakout,
}
use stock_graph_analyzer.Swing.Orders.Gates.{
  IsUnlit, IsDecided, entered, armed, watched, gates-IsDecided,
}
use stock_graph_analyzer.Swing.Build.{
  SideInput, BuildResult, no_price, raised, built, side_geometry, side_gates, side_setup,
  side_levels, build_side, with_emerging, apply_emerging, finish_plan, is_go_light, plan_price,
  side_input, build_swing_plan, is_sell, longest_daily,
}
use stock_graph_analyzer.Swing.Orders.Entry.{IsOrder, enter, arm, watch, build_side-IsOrder}

module _ {F : Type 0} ⦃f : Float F⦄ where
  pub data IsOrderly (stats : Stats F) (i : SideInput F) (usecase : UseCase)
      : BuildResult F → Type 0 where
    unpriced : (i.price ≤? lit 0 0) ≡ true → IsOrderly stats i usecase no_price
    no_bars :
        is_sell usecase ≡ false
        → longest_daily i.reports daily_frames i.report.bars ≡ []
        → IsOrderly stats i usecase raised
    mature :
        (p : SwingPlan F)
        → IsOrder stats i (is_sell usecase) p
        → p.emerging ≡ none
        → (is_sell usecase ≡ true)
          ⊎ (ltb (length (longest_daily i.reports daily_frames i.report.bars)) emerging_max_bars
              ≡ false)
        → IsOrderly stats i usecase (built p)
    demand :
        (p : SwingPlan F) (es : EmergingScore F)
        → IsOrder stats i (is_sell usecase) p
        → p.emerging ≡ some es
        → p.confidence ≡ low
        → es.extended ≡ false
        → is_sell usecase ≡ false
        → IsOrderly stats i usecase (built p)
    stretched :
        (p : SwingPlan F) (es : EmergingScore F)
        → p.emerging ≡ some es
        → p.confidence ≡ low
        → es.extended ≡ true
        → p.go ≡ false
        → p.actionable ≡ false
        → IsUnlit p.light
        → is_sell usecase ≡ false
        → IsOrderly stats i usecase (built p)

  -- the demand score leaves an order as it is
  IsOrder-demand :
      (stats : Stats F) (i : SideInput F) (short : Bool) (p : SwingPlan F) (es : EmergingScore F)
      → IsOrder stats i short p
      → IsOrder stats i short (record p {
        confidence = low;
        emerging = some es;
        score = es.score;
        score_label = demanded es.label;
      })
  IsOrder-demand stats i short p es (enter a b c d e t cleared) = enter a b c d e t cleared
  IsOrder-demand stats i short p es (arm w a b c d e t ready) = arm w a b c d e t ready
  IsOrder-demand stats i short p es (watch a b l) = watch a b l

  IsUnlit-stretched :
      (stats : Stats F) (i : SideInput F) (short : Bool) (p : SwingPlan F)
      → IsOrder stats i short p
      → IsUnlit (if p.go || is_go_light p.light then forming else p.light)
  IsUnlit-stretched stats i short p (enter a b c d e t cleared) = rw a (inl refl)
  IsUnlit-stretched stats i short p (arm w a b c d e t ready) = rw (a, b) (inl refl)
  IsUnlit-stretched stats i short p (watch a b (inl l)) = rw (a, l) (inl refl)
  IsUnlit-stretched stats i short p (watch a b (inr l)) = rw (a, l) (inr refl)

  with_emerging-IsOrderly :
      (stats : Stats F) (i : SideInput F) (usecase : UseCase) (es : EmergingScore F)
      (p : SwingPlan F)
      → is_sell usecase ≡ false
      → IsOrder stats i (is_sell usecase) p
      → IsOrderly stats i usecase (with_emerging (some es) p)
  unfolding with_emerging
  with_emerging-IsOrderly stats i usecase es p q o =
      let unlit = IsUnlit-stretched stats i (is_sell usecase) p o in
      elim (Bool-cases es.extended) [
        | inl e ↦
            rw e (stretched _ (record es { extended = true }) refl refl refl refl refl unlit q)
        | inr e ↦ rw e (
            demand _ (record es { extended = false })
              (IsOrder-demand stats i (is_sell usecase) p _ o) refl refl refl q)
      ]

  score_emerging-none :
      (bars : List (SwingBar F)) (price vwap : Option F)
      → score_emerging bars price vwap ≡ none
      → bars ≡ []
  unfolding score_emerging
  score_emerging-none [] price vwap h = refl
  score_emerging-none (b ∷ bars) price vwap h = ground arith

  apply_emerging-IsOrderly :
      (stats : Stats F) (i : SideInput F) (usecase : UseCase) (p : SwingPlan F)
      → is_sell usecase ≡ false
      → IsOrder stats i (is_sell usecase) p
      → p.emerging ≡ none
      → IsOrderly stats i usecase (apply_emerging i p)
  unfolding apply_emerging with_emerging
  apply_emerging-IsOrderly stats i usecase p q o none_yet =
      let daily = longest_daily i.reports daily_frames i.report.bars in
      elim (Bool-cases (ltb (length daily) emerging_max_bars)) [
        | inr long ↦ rw long (mature p o none_yet (inr long))
        | inl short ↦
            elim (Option-cases (score_emerging daily i.context.offering_price i.context.vwap)) [
              | inl e ↦ rw (short, e) (no_bars q (score_emerging-none daily _ _ e))
              | inr (es, e) ↦ rw (short, e) (with_emerging-IsOrderly stats i usecase es p q o)
            ]
      ]

  build_side-mature :
      (stats : Stats F) (i : SideInput F) (short : Bool)
      → (build_side stats i short).emerging ≡ none
  unfolding build_side assemble_plan
  build_side-mature stats i short = refl

  module _ (order : IsOrdered F) where
    finish_plan-IsOrderly :
        (stats : Stats F) (i : SideInput F) (usecase : UseCase)
        → IsOrderly stats i usecase (finish_plan usecase i (build_side stats i (is_sell usecase)))
    finish_plan-IsOrderly stats i buy =
        apply_emerging-IsOrderly stats i buy _ refl (build_side-IsOrder order stats i false)
          (build_side-mature stats i false)
    finish_plan-IsOrderly stats i own =
        apply_emerging-IsOrderly stats i own _ refl (build_side-IsOrder order stats i false)
          (build_side-mature stats i false)
    finish_plan-IsOrderly stats i sell =
        mature _ (build_side-IsOrder order stats i true) (build_side-mature stats i true) (inl refl)

    -- A swing plan is one of three. An order at once: GO, at the price, without a trigger, with a
    -- setup, a reward of at least 1.5 times the risk and the minimal aim, and with no earnings
    -- guard, crash block, overextension, adverse trend or momentum against it. An order at a wall:
    -- not GO, the wall is the trigger and the rounded entry, the trigger is near, the reward is at
    -- least 1.5 times the risk, no earnings guard and no crash block. Or no order: neither GO nor
    -- actionable, the light not green. On fewer than 60 daily bars a plan to buy or own has low
    -- confidence, and is no order where the demand is extended; without any bar the code raises,
    -- and without a positive price there is no plan.
    pub build_swing_plan-IsOrderly :
        (stats : Stats F) (report : SwingReport F) (decision : Option Timeframe) (usecase : UseCase)
        (pace : SwingPace) (over : Option F) (reports : AllReports F) (context : SwingContext F)
        → IsOrderly stats
            (side_input stats report decision pace
              (plan_price over report.last_close)
              reports
              context)
            usecase
            (build_swing_plan stats report decision usecase pace over reports context)
    unfolding build_swing_plan
    build_swing_plan-IsOrderly stats report decision usecase pace over reports context =
        let price = plan_price over report.last_close in
        let i = side_input stats report decision pace price reports context in
        elim (Bool-cases (price ≤? lit 0 0)) [
          | inl e ↦ rw e (unpriced e)
          | inr e ↦ rw e (finish_plan-IsOrderly stats i usecase)
        ]
