-- ===== src/Swing/Reach.antt =====
-- How far a target of stockanalyzer/explain/swing.py may be.
use stock_graph_analyzer.Float.{Float, ◌⊗◌, ◌⊘◌, lit, min}
use stock_graph_analyzer.Swing.{PaceTuning, Stats}

module _ {F : Type 0} ⦃f : Float F⦄ where
  -- `_BREAKOUT_ROOM_FACTOR`
  abbrev pub breakout_room_factor : F
  breakout_room_factor = lit 75 2

  -- how far a target may be: the smaller of the tuning's cap and the volatility budget
  unfoldable pub target_reach : Stats F → PaceTuning F → F → F → F
  target_reach stats tuning price budget_atr_abs =
      min tuning.target_cap (budget_atr_abs ⊘ price ⊗ stats.sqrt tuning.budget_days)

  -- just under a wall, just above a floor
  abbrev pub under_wall : F → F
  under_wall wall = wall ⊗ lit 995 3

  abbrev pub above_floor : F → F
  above_floor level = level ⊗ lit 1005 3
