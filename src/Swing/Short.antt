-- ===== src/Swing/Short.antt =====
-- `_short_geometry` of stockanalyzer/explain/swing.py: entry, stop and target.
use stock_graph_analyzer.Base.{ℕ, zero, suc, Bool, Option, some, none, List, [], ◌∷◌, if◌then◌else◌}
use stock_graph_analyzer.Float.{Float, ◌⊕◌, ◌⊖◌, ◌⊗◌, ◌⊘◌, ◌≥?◌, ◌>?◌, lit, max, min}
use stock_graph_analyzer.Swing.{PaceTuning, Geometry, immediate, breakout_wait, no_trade, Stats}
use stock_graph_analyzer.Swing.Reach.{breakout_room_factor, target_reach, above_floor}

module _ {F : Type 0} ⦃f : Float F⦄ where
  abbrev pub stop_for : PaceTuning F → F → F → F
  stop_for tuning atr_abs entry = entry ⊕ tuning.stop_atr_mult ⊗ atr_abs

  abbrev pub watch : PaceTuning F → F → F → F → Geometry F
  watch tuning atr_abs price s1 = record {
    kind = no_trade;
    entry = price;
    stop = stop_for tuning atr_abs price;
    target = min (above_floor s1) price;
    trigger = none;
  }

  abbrev pub armed : PaceTuning F → F → F → F → Geometry F
  armed tuning atr_abs level target = record {
    kind = breakout_wait;
    entry = level;
    stop = max (level ⊗ lit 1002 3) (level ⊕ tuning.stop_atr_mult ⊗ atr_abs);
    target = target;
    trigger = some level;
  }

  unfoldable pub leg_target : F → F → List F → Option F
  leg_target cap entry [] = some (entry ⊗ (lit 1 0 ⊖ cap))
  leg_target cap entry (nxt ∷ _) =
      if lit 1 0 ⊖ above_floor nxt ⊘ entry >? cap then none else some (above_floor nxt)

  abbrev pub has_room : PaceTuning F → F → F → Bool
  has_room tuning entry target = lit 1 0 ⊖ target ⊘ entry ≥? breakout_room_factor ⊗ tuning.min_move

  abbrev take_leg : PaceTuning F → F → F → Option F → Geometry F → Geometry F
  take_leg tuning atr_abs level none rest = rest
  take_leg tuning atr_abs level (some target) rest =
      if has_room tuning level target then armed tuning atr_abs level target else rest

  unfoldable pub descend : PaceTuning F → F → F → F → Geometry F → ℕ → List F → Geometry F
  unfolding leg_target
  descend tuning atr_abs price cap fallback zero supports = fallback
  descend tuning atr_abs price cap fallback (suc rungs) [] = fallback
  descend tuning atr_abs price cap fallback (suc rungs) (level ∷ supports) =
      let rest = descend tuning atr_abs price cap fallback rungs supports in
      if lit 1 0 ⊖ level ⊘ price >? cap
      then fallback
      else take_leg tuning atr_abs level (leg_target cap level supports) rest

  unfoldable pub short_geometry :
      Stats F → F → List F → F → F → PaceTuning F → Bool → Bool → Geometry F
  unfolding target_reach descend
  short_geometry stats price [] atr_abs budget_atr_abs tuning countertrend leg_spent = record {
    kind = immediate;
    entry = price;
    stop = stop_for tuning atr_abs price;
    target = price ⊗ (lit 1 0 ⊖ target_reach stats tuning price budget_atr_abs);
    trigger = none;
  }
  short_geometry stats price (s1 ∷ supports) atr_abs budget_atr_abs tuning countertrend leg_spent =
      let cap = target_reach stats tuning price budget_atr_abs in
      let fallback = watch tuning atr_abs price s1 in
      if lit 1 0 ⊖ s1 ⊘ price ≥? tuning.min_move
      then record {
        kind = immediate;
        entry = price;
        stop = stop_for tuning atr_abs price;
        target = max (above_floor s1) (price ⊗ (lit 1 0 ⊖ cap));
        trigger = none;
      }
      else if countertrend
      then fallback
      else if leg_spent
      then fallback
      else descend tuning atr_abs price cap fallback 3 (s1 ∷ supports)
