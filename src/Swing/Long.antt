-- ===== src/Swing/Long.antt =====
-- `_long_geometry` of stockanalyzer/explain/swing.py: entry, stop and target.
use stock_graph_analyzer.Base.{ℕ, zero, suc, Bool, Option, some, none, List, [], ◌∷◌, if◌then◌else◌}
use stock_graph_analyzer.Float.{Float, ◌⊕◌, ◌⊖◌, ◌⊗◌, ◌⊘◌, ◌≥?◌, ◌>?◌, lit, max, min}
use stock_graph_analyzer.Swing.{PaceTuning, Geometry, immediate, breakout_wait, no_trade, Stats}
use stock_graph_analyzer.Swing.Reach.{breakout_room_factor, target_reach, under_wall}

module _ {F : Type 0} ⦃f : Float F⦄ where
  abbrev pub stop_for : PaceTuning F → F → F → F
  stop_for tuning atr_abs entry = max (lit 1 2) (entry ⊖ tuning.stop_atr_mult ⊗ atr_abs)

  abbrev pub watch : PaceTuning F → F → F → F → Geometry F
  watch tuning atr_abs price r1 = record {
    kind = no_trade;
    entry = price;
    stop = stop_for tuning atr_abs price;
    target = max (under_wall r1) price;
    trigger = none;
  }

  abbrev pub armed : PaceTuning F → F → F → F → Geometry F
  armed tuning atr_abs wall target = record {
    kind = breakout_wait;
    entry = wall;
    stop = max (lit 1 2) (min (wall ⊗ lit 998 3) (wall ⊖ tuning.stop_atr_mult ⊗ atr_abs));
    target = target;
    trigger = some wall;
  }

  -- the leg from one wall: its target, or `none` where the next wall is beyond the budget
  unfoldable pub leg_target : F → F → List F → Option F
  leg_target cap entry [] = some (entry ⊗ (lit 1 0 ⊕ cap))
  leg_target cap entry (nxt ∷ _) =
      if under_wall nxt ⊘ entry ⊖ lit 1 0 >? cap then none else some (under_wall nxt)

  abbrev pub has_room : PaceTuning F → F → F → Bool
  has_room tuning entry target = target ⊘ entry ⊖ lit 1 0 ≥? breakout_room_factor ⊗ tuning.min_move

  abbrev take_leg : PaceTuning F → F → F → Option F → Geometry F → Geometry F
  take_leg tuning atr_abs wall none rest = rest
  take_leg tuning atr_abs wall (some target) rest =
      if has_room tuning wall target then armed tuning atr_abs wall target else rest

  -- the ladder of at most `rungs` walls; `fallback` is the plan without a trade
  unfoldable pub climb : PaceTuning F → F → F → F → Geometry F → ℕ → List F → Geometry F
  unfolding leg_target
  climb tuning atr_abs price cap fallback zero walls = fallback
  climb tuning atr_abs price cap fallback (suc rungs) [] = fallback
  climb tuning atr_abs price cap fallback (suc rungs) (wall ∷ walls) =
      let rest = climb tuning atr_abs price cap fallback rungs walls in
      if wall ⊘ price ⊖ lit 1 0 >? cap
      then fallback
      else take_leg tuning atr_abs wall (leg_target cap wall walls) rest

  unfoldable pub long_geometry :
      Stats F → F → List F → F → F → PaceTuning F → Bool → Bool → Geometry F
  unfolding target_reach climb
  long_geometry stats price [] atr_abs budget_atr_abs tuning countertrend leg_spent = record {
    kind = immediate;
    entry = price;
    stop = stop_for tuning atr_abs price;
    target = price ⊗ (lit 1 0 ⊕ target_reach stats tuning price budget_atr_abs);
    trigger = none;
  }
  long_geometry stats price (r1 ∷ walls) atr_abs budget_atr_abs tuning countertrend leg_spent =
      let cap = target_reach stats tuning price budget_atr_abs in
      let fallback = watch tuning atr_abs price r1 in
      if r1 ⊘ price ⊖ lit 1 0 ≥? tuning.min_move
      then record {
        kind = immediate;
        entry = price;
        stop = stop_for tuning atr_abs price;
        target = min (under_wall r1) (price ⊗ (lit 1 0 ⊕ cap));
        trigger = none;
      }
      else if countertrend
      then fallback
      else if leg_spent
      then fallback
      else climb tuning atr_abs price cap fallback 3 (r1 ∷ walls)
