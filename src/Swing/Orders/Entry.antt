-- ===== src/Swing/Orders/Entry.antt =====
-- When a side of the swing plan of stockanalyzer/explain/swing.py is an order.
use stock_graph_analyzer.Base.{
  ◌≡◌, ap, Bool, true, false, not, ◌&&◌, some, none, List, arith, is_some,
}
use stock_graph_analyzer.Float.{Float, IsOrdered, ◌≥?◌, ◌⊖◌, ◌⊘◌, round}
use stock_graph_analyzer.Swing.{Stats, Geometry, immediate, breakout_wait, no_trade, PaceTuning}
use stock_graph_analyzer.Swing.Levels.{absolute}
use stock_graph_analyzer.Swing.Aims.Long
use stock_graph_analyzer.Swing.Aims.Short
use stock_graph_analyzer.Swing.Volatility.{indicator_guards, macd_against, crash_regime}
use stock_graph_analyzer.Swing.Plan.{
  go_light, forming, SwingPlan, reward_risk, min_rr, is_within, trigger_is_near, assemble_plan,
}
use stock_graph_analyzer.Swing.Orders.Gates.{
  IsUnlit, IsDecided, entered, armed, watched, gates-IsDecided,
}
use stock_graph_analyzer.Swing.Build.{
  SideInput, side_geometry, side_gates, side_setup, side_levels, build_side,
}

module _ {F : Type 0} ⦃f : Float F⦄ where
  -- where a plan enters
  data IsPlaced (price : F) (g : Geometry F) : Type 0 where
    at_price : g.kind ≡ immediate → g.entry ≡ price → g.trigger ≡ none → IsPlaced price g
    at_wall :
        (wall : F)
        → g.kind ≡ breakout_wait
        → g.entry ≡ wall
        → g.trigger ≡ some wall
        → IsPlaced price g
    nowhere : g.kind ≡ no_trade → IsPlaced price g

  -- what a plan that is entered at once has passed
  abbrev pub IsCleared : Stats F → SideInput F → Bool → Type 0
  IsCleared stats i short =
      let geom = side_geometry stats i short in
      let guards = indicator_guards i.reports i.report.bars short in
      let crash = crash_regime i.reports i.price geom.entry geom.target (not short) in
      ((is_some (side_setup i short)) ≡ true)
      × ((reward_risk geom ≥? min_rr) ≡ true)
      × ((absolute (geom.target ⊖ geom.entry) ⊘ geom.entry ≥? i.tuning.min_move) ≡ true)
      × (is_within i.tuning.earnings_guard_days i.context.earnings_days ≡ false)
      × ((crash.in_regime && crash.large_aim) ≡ false)
      × (guards.0 ≡ false)
      × (guards.1 ≡ false)
      × (macd_against i.reports short ≡ false)

  -- what a plan that waits for a breakout as an order has passed
  abbrev pub IsArmed : Stats F → SideInput F → Bool → Type 0
  IsArmed stats i short =
      let geom = side_geometry stats i short in
      let crash = crash_regime i.reports i.price geom.entry geom.target (not short) in
      ((reward_risk geom ≥? min_rr) ≡ true)
      × (trigger_is_near i.price i.atr_frac short geom geom.trigger ≡ true)
      × (is_within i.tuning.earnings_guard_days i.context.earnings_days ≡ false)
      × ((crash.in_regime && crash.large_aim) ≡ false)

  -- an order at once, an order at a wall, or no order
  pub data IsOrder (stats : Stats F) (i : SideInput F) (short : Bool) (p : SwingPlan F)
      : Type 0 where
    enter :
        p.go ≡ true
        → p.light ≡ go_light
        → p.actionable ≡ true
        → p.kind ≡ immediate
        → p.entry ≡ round i.price 2
        → p.trigger ≡ none
        → IsCleared stats i short
        → IsOrder stats i short p
    arm :
        (wall : F)
        → p.go ≡ false
        → p.light ≡ forming
        → p.actionable ≡ true
        → p.kind ≡ breakout_wait
        → p.entry ≡ round wall 2
        → p.trigger ≡ some wall
        → IsArmed stats i short
        → IsOrder stats i short p
    watch : p.go ≡ false → p.actionable ≡ false → IsUnlit p.light → IsOrder stats i short p

  module _ (order : IsOrdered F) where
    long-IsPlaced :
        (price cap : F) (tuning : PaceTuning F) (may_break : Bool) (walls : List F) (g : Geometry F)
        → Long.IsHonest price cap tuning may_break walls g
        → IsPlaced price g
    long-IsPlaced price cap tuning may_break walls g (Long.at_once k e t _ _) = at_price k e t
    long-IsPlaced price cap tuning may_break walls g (Long.breakout wall next k e t _ _ _ _) =
        at_wall wall k e t
    long-IsPlaced price cap tuning may_break walls g (Long.watching k e t _) = nowhere k

    short-IsPlaced :
        (price cap : F) (tuning : PaceTuning F) (may_break : Bool) (walls : List F) (g : Geometry F)
        → Short.IsHonest price cap tuning may_break walls g
        → IsPlaced price g
    short-IsPlaced price cap tuning may_break walls g (Short.at_once k e t _ _) = at_price k e t
    short-IsPlaced price cap tuning may_break walls g (Short.breakdown wall next k e t _ _ _ _) =
        at_wall wall k e t
    short-IsPlaced price cap tuning may_break walls g (Short.watching k e t _) = nowhere k

    side_geometry-IsPlaced :
        (stats : Stats F) (i : SideInput F) (short : Bool)
        → IsPlaced i.price (side_geometry stats i short)
    unfolding side_geometry
    side_geometry-IsPlaced stats i true =
        short-IsPlaced i.price _ i.tuning _ (side_levels i).1 _
          (Short.short_geometry-IsHonest order stats i.price (side_levels i).1 _ _ i.tuning _ _)
    side_geometry-IsPlaced stats i false =
        long-IsPlaced i.price _ i.tuning _ (side_levels i).0 _
          (Long.long_geometry-IsHonest order stats i.price (side_levels i).0 _ _ i.tuning _ _)

  IsDecided-IsOrder :
      (stats : Stats F) (i : SideInput F) (short : Bool)
      → IsDecided (side_gates stats i short (side_geometry stats i short))
      → IsPlaced i.price (side_geometry stats i short)
      → IsOrder stats i short (build_side stats i short)
  unfolding build_side assemble_plan side_gates
  IsDecided-IsOrder stats i short
        (entered go light act k present rr aim earn crash over adv against) (at_price _ e t) =
      enter go light act k (ap (λ x. round x 2) e) t
        (ground (arith, present), rr, aim, earn, crash, over, adv, against)
  IsDecided-IsOrder stats i short (entered go light act k _ _ _ _ _ _ _ _) (at_wall w q _ _) =
      cc (k, q)
  IsDecided-IsOrder stats i short (entered go light act k _ _ _ _ _ _ _ _) (nowhere q) = cc (k, q)
  IsDecided-IsOrder stats i short (armed go light act k rr near earn crash) (at_price q _ _) =
      cc (k, q)
  IsDecided-IsOrder stats i short (armed go light act k rr near earn crash) (at_wall w _ e t) =
      arm w go light act k (ap (λ x. round x 2) e) t (rr, near, earn, crash)
  IsDecided-IsOrder stats i short (armed go light act k rr near earn crash) (nowhere q) = cc (k, q)
  IsDecided-IsOrder stats i short (watched go act light) placed = watch go act light

  module _ (order : IsOrdered F) where
    pub build_side-IsOrder :
        (stats : Stats F) (i : SideInput F) (short : Bool)
        → IsOrder stats i short (build_side stats i short)
    build_side-IsOrder stats i short =
        IsDecided-IsOrder stats i short (gates-IsDecided _)
          (side_geometry-IsPlaced order stats i short)
