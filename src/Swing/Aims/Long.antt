-- ===== src/Swing/Aims/Long.antt =====
-- What a long plan aims at: `_long_geometry` of stockanalyzer/explain/swing.py.
use stock_graph_analyzer.Base.{
  ℕ, zero, suc, ◌≡◌, refl, Bool, true, false, Option, some, none, List, [], ◌∷◌, inl, inr,
  Bool-cases, not, ◌||◌,
}
use stock_graph_analyzer.Float.{Float, IsOrdered, ◌⊕◌, ◌⊖◌, ◌⊗◌, ◌⊘◌, ◌≥?◌, ◌≤?◌, ◌>?◌, lit}
use stock_graph_analyzer.Float.Order.{min-le, min-le_right, le-max_right}
use stock_graph_analyzer.Swing.{PaceTuning, Geometry, immediate, breakout_wait, no_trade, Stats}
use stock_graph_analyzer.Swing.Reach.{target_reach, under_wall}
use stock_graph_analyzer.Swing.Long.{climb, leg_target, has_room, long_geometry, watch, armed}
use stock_graph_analyzer.Swing.Aims.{Rung, last_wall, next_wall, after}

module _ {F : Type 0} ⦃f : Float F⦄ where
  -- how far above the price a wall is, as a fraction, is beyond the cap
  abbrev pub is_beyond : F → F → F → Bool
  is_beyond cap price wall = wall ⊘ price ⊖ lit 1 0 >? cap

  -- the target of a breakout at a wall: under the next one if that is within the cap of the wall,
  -- or at the cap where there is none
  pub data LegAim (cap wall : F) : Option F → F → Type 0 where
    to_next :
        {next : F}
        → is_beyond cap wall (under_wall next) ≡ false
        → LegAim cap wall (some next) (under_wall next)
    to_budget : LegAim cap wall none (wall ⊗ (lit 1 0 ⊕ cap))

  -- the ceiling of an immediate plan
  abbrev pub IsUnder : F → PaceTuning F → F → List F → Type 0
  IsUnder price tuning target [] = Unit {0}
  IsUnder price tuning target (r1 ∷ walls) =
      ((target ≤? under_wall r1) ≡ true) × ((r1 ⊘ price ⊖ lit 1 0 ≥? tuning.min_move) ≡ true)

  pub data IsHonest (price cap : F) (tuning : PaceTuning F) (may_break : Bool) (walls : List F)
      (g : Geometry F) : Type 0 where
    at_once :
        g.kind ≡ immediate
        → g.entry ≡ price
        → g.trigger ≡ none
        → (g.target ≤? price ⊗ (lit 1 0 ⊕ cap)) ≡ true
        → IsUnder price tuning g.target walls
        → IsHonest price cap tuning may_break walls g
    breakout :
        (wall : F) (next : Option F)
        → g.kind ≡ breakout_wait
        → g.entry ≡ wall
        → g.trigger ≡ some wall
        → Rung (is_beyond cap price) 3 walls wall next
        → LegAim cap wall next g.target
        → has_room tuning wall g.target ≡ true
        → may_break ≡ true
        → IsHonest price cap tuning may_break walls g
    watching :
        g.kind ≡ no_trade
        → g.entry ≡ price
        → g.trigger ≡ none
        → (price ≤? g.target) ≡ true
        → IsHonest price cap tuning may_break walls g

  -- a breakout plan, or the one without a trade
  data IsClimbed (price cap : F) (tuning : PaceTuning F) (fallback : Geometry F) (n : ℕ)
      (walls : List F) : Geometry F → Type 0 where
    armed_at :
        (atr wall target : F) (next : Option F)
        → Rung (is_beyond cap price) n walls wall next
        → LegAim cap wall next target
        → has_room tuning wall target ≡ true
        → IsClimbed price cap tuning fallback n walls (armed tuning atr wall target)
    no_leg : IsClimbed price cap tuning fallback n walls fallback

  IsClimbed-after :
      (tuning : PaceTuning F) (price cap : F) (fallback g : Geometry F) (n : ℕ) (u : F)
      (walls : List F)
      → is_beyond cap price u ≡ false
      → IsClimbed price cap tuning fallback n walls g
      → IsClimbed price cap tuning fallback (suc n) (u ∷ walls) g
  IsClimbed-after tuning price cap fallback g n u walls q
        (armed_at atr wall target next r aim room) =
      armed_at atr wall target next (after q r) aim room
  IsClimbed-after tuning price cap fallback g n u walls q no_leg = no_leg

  climb-IsClimbed :
      (tuning : PaceTuning F) (atr price cap : F) (fallback : Geometry F) (n : ℕ) (walls : List F)
      → IsClimbed price cap tuning fallback n walls (climb tuning atr price cap fallback n walls)
  unfolding climb leg_target
  climb-IsClimbed tuning atr price cap fallback zero walls = no_leg
  climb-IsClimbed tuning atr price cap fallback (suc n) [] = no_leg
  climb-IsClimbed tuning atr price cap fallback (suc n) (w ∷ []) =
      let ih = climb-IsClimbed tuning atr price cap fallback n [] in
      elim (Bool-cases (is_beyond cap price w)) [
        | inl e ↦ rw e no_leg
        | inr e ↦ elim (Bool-cases (has_room tuning w (w ⊗ (lit 1 0 ⊕ cap)))) [
          | inl room ↦ rw (e, room) (armed_at atr w _ none (last_wall e) to_budget room)
          | inr room ↦ rw (e, room) (IsClimbed-after tuning price cap fallback _ n w [] e ih)
        ]
      ]
  climb-IsClimbed tuning atr price cap fallback (suc n) (w ∷ v ∷ walls) =
      let ih = climb-IsClimbed tuning atr price cap fallback n (v ∷ walls) in
      let later = λ (e : is_beyond cap price w ≡ false).
        IsClimbed-after tuning price cap fallback
          (climb tuning atr price cap fallback n (v ∷ walls)) n w (v ∷ walls) e ih in
      elim (Bool-cases (is_beyond cap price w)) [
        | inl e ↦ rw e no_leg
        | inr e ↦ elim (Bool-cases (is_beyond cap w (under_wall v))) [
          | inl far ↦ rw (e, far) (later e)
          | inr near ↦ elim (Bool-cases (has_room tuning w (under_wall v))) [
            | inl room ↦
                rw (e, near, room) (armed_at atr w _ (some v) (next_wall e) (to_next near) room)
            | inr room ↦ rw (e, near, room) (later e)
          ]
        ]
      ]

  module _ (order : IsOrdered F) where
    IsClimbed-IsHonest :
        (price cap atr r1 : F) (tuning : PaceTuning F) (walls : List F) (g : Geometry F)
        → IsClimbed price cap tuning (watch tuning atr price r1) 3 walls g
        → IsHonest price cap tuning true walls g
    IsClimbed-IsHonest price cap atr r1 tuning walls g (armed_at a wall target next r aim room) =
        breakout wall next refl refl refl r aim room refl
    IsClimbed-IsHonest price cap atr r1 tuning walls g no_leg =
        watching refl refl refl (le-max_right order (under_wall r1) price)

    -- The long plan aims at what the horizon and the level map allow. At once: at the price, for
    -- a target under the first wall and within the reach, where the first wall is at least the
    -- minimal move away. A breakout: at one of the first three walls, all up to it within the
    -- reach, for a target under the next wall within the reach of the entry, or at the reach
    -- where there is none, with three quarters of the minimal move as room, and neither against
    -- the trend nor with the leg spent. No trade: no trigger, and a target not below the price.
    pub long_geometry-IsHonest :
        (stats : Stats F) (price : F) (walls : List F) (atr budget : F) (tuning : PaceTuning F)
        (countertrend leg_spent : Bool)
        → IsHonest price
            (target_reach stats tuning price budget)
            tuning
            (not (countertrend || leg_spent))
            walls
            (long_geometry stats price walls atr budget tuning countertrend leg_spent)
    unfolding long_geometry
    long_geometry-IsHonest stats price [] atr budget tuning countertrend leg_spent =
        at_once refl refl refl (order.le_refl _) tt
    long_geometry-IsHonest stats price (r1 ∷ walls) atr budget tuning countertrend leg_spent =
        let cap = target_reach stats tuning price budget in
        elim (Bool-cases (r1 ⊘ price ⊖ lit 1 0 ≥? tuning.min_move)) [
          | inl e ↦ rw e (at_once refl refl refl (min-le_right order _ _) (min-le order _ _, e))
          | inr e ↦ elim (Bool-cases countertrend) [
            | inl c ↦ rw (e, c) (watching refl refl refl (le-max_right order (under_wall r1) price))
            | inr c ↦ elim (Bool-cases leg_spent) [
              | inl s ↦
                  rw (e, c, s) (watching refl refl refl (le-max_right order (under_wall r1) price))
              | inr s ↦
                  rw (e, c, s)
                    (IsClimbed-IsHonest price cap atr r1 tuning (r1 ∷ walls) _ (
                      climb-IsClimbed tuning atr price cap (watch tuning atr price r1) 3
                        (r1 ∷ walls)))
            ]
          ]
        ]
