-- ===== src/Swing/Plan.antt =====
-- The swing plan and its gates: what `_build_side` of stockanalyzer/explain/swing.py decides. The texts
-- are left out.
use stock_graph_analyzer.Base.{
  ℕ, Bool, true, false, not, ◌&&◌, ◌||◌, Option, some, none, List, [], ◌∷◌, if◌then◌else◌, leb,
  find, Text, codes,
}
use stock_graph_analyzer.Float.{
  Float, ◌⊖◌, ◌⊗◌, ◌⊘◌, ◌≥?◌, ◌≤?◌, ◌>?◌, ◌<?◌, lit, max, round, truthy,
}
use stock_graph_analyzer.Signals.{Direction, bull, bear}
use stock_graph_analyzer.Swing.{PaceTuning, PlanKind, immediate, breakout_wait, Geometry}
use stock_graph_analyzer.Swing.Levels.{absolute}
use stock_graph_analyzer.Swing.Setup.{
  SwingSetup, breakout_volume, momentum_gap, momentum_gap_down, pullback_to_ema,
}
use stock_graph_analyzer.Swing.Emerging.{EmergingScore, EmergingLabel}
use stock_graph_analyzer.Swing.Checks.{SwingCheck}
use stock_graph_analyzer.Swing.Score.{ScoreLabel}

pub data UseCase : Type 0 where
  buy sell own : UseCase

pub data Light : Type 0 where
  go_light forming no_light : Light

pub data Confidence : Type 0 where
  high moderate low : Confidence

-- `score_label`: of the checklist score or of the demand score
pub data PlanLabel : Type 0 where
  scored : ScoreLabel → PlanLabel
  demanded : EmergingLabel → PlanLabel

pub record SwingPlan (F : Type 0) : Type 0 where
  pub setup : Option SwingSetup
  pub bias : Direction
  pub entry : F
  pub stop : F
  pub stop_pct : F
  pub target1 : F
  pub target1_pct : F
  pub target2 : Option F
  pub rr : F
  pub risk_pct : F
  pub go : Bool
  pub light : Light
  pub confidence : Confidence
  pub fast_mover : Bool
  pub score : F
  pub score_label : PlanLabel
  pub checks : List SwingCheck
  pub kind : PlanKind
  pub trigger : Option F
  pub daily_atr_pct : F
  pub actionable : Bool
  pub emerging : Option (EmergingScore F)

-- what decides on `go` and `actionable`
pub record Gates : Type 0 where
  pub kind : PlanKind
  pub setup_present : Bool
  pub tier_ok : Bool
  pub rr_ok : Bool
  pub aim_ok : Bool
  pub vol_ok : Bool
  pub strong_downtrend : Bool
  pub earnings_block : Bool
  pub crash_block : Bool
  pub overext : Bool
  pub adverse_trend : Bool
  pub against : Bool
  pub trigger_near : Bool

abbrev pub is_immediate : PlanKind → Bool
is_immediate immediate = true
is_immediate _ = false

abbrev pub waits_for_breakout : PlanKind → Bool
waits_for_breakout breakout_wait = true
waits_for_breakout _ = false

-- the GO gate
unfoldable pub is_go : Gates → Bool
is_go g =
    is_immediate g.kind
    && (g.setup_present
        && (g.tier_ok
            && (g.rr_ok
                && (g.aim_ok
                    && (g.vol_ok
                        && (not g.strong_downtrend
                            && (not g.earnings_block
                                && (not g.crash_block
                                    && (not g.overext
                                        && (not g.adverse_trend && not g.against))))))))))

unfoldable pub light_of : Gates → Light
unfolding is_go
light_of g =
    if is_go g
    then go_light
    else if g.setup_present || waits_for_breakout g.kind
    then forming
    else no_light

-- whether the plan may become an order
unfoldable pub is_actionable : Gates → Bool
unfolding is_go
is_actionable g =
    is_go g
    || (waits_for_breakout g.kind
        && (g.rr_ok && (g.trigger_near && (not g.crash_block && not g.earnings_block))))

-- `_FAST`
abbrev pub fast_names : List Text
fast_names =
    codes "premarket_gap_up"
    ∷ codes "premarket_gap_down"
    ∷ codes "volume_spike"
    ∷ codes "afterhours_move_up"
    ∷ codes "afterhours_move_down"
    ∷ []

abbrev pub is_within : ℕ → Option ℕ → Bool
is_within guard none = false
is_within guard (some days) = leb days guard

module _ {F : Type 0} ⦃f : Float F⦄ where
  -- `_MIN_RR`, `_TRIGGER_NEAR_PCT`
  abbrev pub min_rr : F
  min_rr = lit 15 1

  abbrev trigger_near_pct : F
  trigger_near_pct = lit 15 3

  unfoldable pub confidence_of : Bool → F → ℕ → Confidence
  confidence_of go rr n =
      if go && (rr ≥? lit 3 0 && leb 2 n) then high else if go then moderate else low

  -- the volume that a setup needs
  unfoldable pub volume_ok : Option SwingSetup → Option F → Bool
  volume_ok _ none = true
  volume_ok (some breakout_volume) (some rvol) = rvol >? lit 15 1
  volume_ok (some momentum_gap) (some rvol) = rvol >? lit 15 1
  volume_ok (some momentum_gap_down) (some rvol) = rvol >? lit 15 1
  volume_ok (some pullback_to_ema) (some rvol) = rvol <? lit 1 0
  volume_ok _ (some rvol) = true

  abbrev at_least_45 : Option F → Bool
  at_least_45 none = true
  at_least_45 (some pct) = pct ≥? lit 45 0

  abbrev pub tier_is_ok : Bool → Option F → PaceTuning F → Bool
  tier_is_ok countertrend inv_pct tuning =
      not countertrend || (at_least_45 inv_pct || (tuning.budget_days ≤? lit 3 0))

  abbrev pub price_below : F → Option F → Bool
  price_below price none = false
  price_below price (some ma) = price <? ma

  abbrev pub trigger_is_near : F → F → Bool → Geometry F → Option F → Bool
  trigger_is_near price atr_frac short geom none = false
  trigger_is_near price atr_frac short geom (some trigger) =
      waits_for_breakout geom.kind
      && (truthy trigger
          && (truthy price
              && ((if short then lit 1 0 ⊖ trigger ⊘ price else trigger ⊘ price ⊖ lit 1 0)
                  ≤? max trigger_near_pct (lit 6 1 ⊗ atr_frac))))

  -- the next level beyond the target
  abbrev pub beyond_target : Bool → List F → List F → F → Option F
  beyond_target short walls supports target =
      if short
      then find (λ s. s <? target ⊗ lit 995 3) supports
      else find (λ w. w >? target ⊗ lit 1005 3) walls

  abbrev rounded_target : Option F → Option F
  rounded_target none = none
  rounded_target (some x) = if truthy x then some (round x 2) else none

  -- reward over risk
  abbrev pub reward_risk : Geometry F → F
  reward_risk geom =
      let risk = absolute (geom.entry ⊖ geom.stop) in
      if risk >? lit 0 0 then absolute (geom.target ⊖ geom.entry) ⊘ risk else lit 0 0

  -- what does not depend on the score: the plan of a geometry and its gates
  unfoldable pub assemble_plan :
      Option SwingSetup
      → Bool
      → Geometry F
      → Gates
      → Option F
      → F
      → ℕ
      → Bool
      → F × ScoreLabel × List SwingCheck
      → SwingPlan F
  unfolding is_go light_of is_actionable confidence_of
  assemble_plan setup short geom gates target2 atr_frac n fast (score, label, checks) =
      let rr = reward_risk geom in
      let stop_pct = (geom.stop ⊘ geom.entry ⊖ lit 1 0) ⊗ lit 100 0 in
      record {
        setup = setup;
        bias = if short then bear else bull;
        entry = round geom.entry 2;
        stop = round geom.stop 2;
        stop_pct = round stop_pct 1;
        target1 = round geom.target 2;
        target1_pct = round ((geom.target ⊘ geom.entry ⊖ lit 1 0) ⊗ lit 100 0) 1;
        target2 = rounded_target target2;
        rr = round rr 1;
        risk_pct = round (absolute (geom.stop ⊘ geom.entry ⊖ lit 1 0) ⊗ lit 100 0) 1;
        go = is_go gates;
        light = light_of gates;
        confidence = confidence_of (is_go gates) rr n;
        fast_mover = fast;
        score = score;
        score_label = scored label;
        checks = checks;
        kind = geom.kind;
        trigger = geom.trigger;
        daily_atr_pct = round (atr_frac ⊗ lit 100 0) 1;
        actionable = is_actionable gates;
        emerging = none;
      }
