-- ===== src/Swing/Aims/Short.antt =====
-- What a short plan aims at: `_short_geometry` of stockanalyzer/explain/swing.py.
use stock_graph_analyzer.Base.{
  ℕ, zero, suc, ◌≡◌, refl, Bool, true, false, Option, some, none, List, [], ◌∷◌, inl, inr,
  Bool-cases, not, ◌||◌,
}
use stock_graph_analyzer.Float.{Float, IsOrdered, ◌⊖◌, ◌⊗◌, ◌⊘◌, ◌≥?◌, ◌≤?◌, ◌>?◌, lit}
use stock_graph_analyzer.Float.Order.{min-le_right, le-max, le-max_right}
use stock_graph_analyzer.Swing.{PaceTuning, Geometry, immediate, breakout_wait, no_trade, Stats}
use stock_graph_analyzer.Swing.Reach.{target_reach, above_floor}
use stock_graph_analyzer.Swing.Short.{descend, leg_target, has_room, short_geometry, watch, armed}
use stock_graph_analyzer.Swing.Aims.{Rung, last_wall, next_wall, after}

module _ {F : Type 0} ⦃f : Float F⦄ where
  -- how far below the price a support is, as a fraction, is beyond the cap
  abbrev pub is_beyond : F → F → F → Bool
  is_beyond cap price wall = lit 1 0 ⊖ wall ⊘ price >? cap

  -- the target of a breakdown at a support: over the next one if that is within the cap of it,
  -- or at the cap where there is none
  pub data LegAim (cap wall : F) : Option F → F → Type 0 where
    to_next :
        {next : F}
        → is_beyond cap wall (above_floor next) ≡ false
        → LegAim cap wall (some next) (above_floor next)
    to_budget : LegAim cap wall none (wall ⊗ (lit 1 0 ⊖ cap))

  -- the floor of an immediate plan
  abbrev pub IsOver : F → PaceTuning F → F → List F → Type 0
  IsOver price tuning target [] = Unit {0}
  IsOver price tuning target (s1 ∷ supports) =
      ((above_floor s1 ≤? target) ≡ true) × ((lit 1 0 ⊖ s1 ⊘ price ≥? tuning.min_move) ≡ true)

  pub data IsHonest (price cap : F) (tuning : PaceTuning F) (may_break : Bool) (supports : List F)
      (g : Geometry F) : Type 0 where
    at_once :
        g.kind ≡ immediate
        → g.entry ≡ price
        → g.trigger ≡ none
        → (price ⊗ (lit 1 0 ⊖ cap) ≤? g.target) ≡ true
        → IsOver price tuning g.target supports
        → IsHonest price cap tuning may_break supports g
    breakdown :
        (wall : F) (next : Option F)
        → g.kind ≡ breakout_wait
        → g.entry ≡ wall
        → g.trigger ≡ some wall
        → Rung (is_beyond cap price) 3 supports wall next
        → LegAim cap wall next g.target
        → has_room tuning wall g.target ≡ true
        → may_break ≡ true
        → IsHonest price cap tuning may_break supports g
    watching :
        g.kind ≡ no_trade
        → g.entry ≡ price
        → g.trigger ≡ none
        → (g.target ≤? price) ≡ true
        → IsHonest price cap tuning may_break supports g

  -- a breakdown plan, or the one without a trade
  data IsDescended (price cap : F) (tuning : PaceTuning F) (fallback : Geometry F) (n : ℕ)
      (supports : List F) : Geometry F → Type 0 where
    armed_at :
        (atr wall target : F) (next : Option F)
        → Rung (is_beyond cap price) n supports wall next
        → LegAim cap wall next target
        → has_room tuning wall target ≡ true
        → IsDescended price cap tuning fallback n supports (armed tuning atr wall target)
    no_leg : IsDescended price cap tuning fallback n supports fallback

  IsDescended-after :
      (tuning : PaceTuning F) (price cap : F) (fallback g : Geometry F) (n : ℕ) (u : F)
      (supports : List F)
      → is_beyond cap price u ≡ false
      → IsDescended price cap tuning fallback n supports g
      → IsDescended price cap tuning fallback (suc n) (u ∷ supports) g
  IsDescended-after tuning price cap fallback g n u supports q
        (armed_at atr wall target next r aim room) =
      armed_at atr wall target next (after q r) aim room
  IsDescended-after tuning price cap fallback g n u supports q no_leg = no_leg

  descend-IsDescended :
      (tuning : PaceTuning F) (atr price cap : F) (fallback : Geometry F) (n : ℕ)
      (supports : List F)
      → IsDescended price cap tuning fallback n supports
          (descend tuning atr price cap fallback n supports)
  unfolding descend leg_target
  descend-IsDescended tuning atr price cap fallback zero supports = no_leg
  descend-IsDescended tuning atr price cap fallback (suc n) [] = no_leg
  descend-IsDescended tuning atr price cap fallback (suc n) (w ∷ []) =
      let ih = descend-IsDescended tuning atr price cap fallback n [] in
      elim (Bool-cases (is_beyond cap price w)) [
        | inl e ↦ rw e no_leg
        | inr e ↦ elim (Bool-cases (has_room tuning w (w ⊗ (lit 1 0 ⊖ cap)))) [
          | inl room ↦ rw (e, room) (armed_at atr w _ none (last_wall e) to_budget room)
          | inr room ↦ rw (e, room) (IsDescended-after tuning price cap fallback _ n w [] e ih)
        ]
      ]
  descend-IsDescended tuning atr price cap fallback (suc n) (w ∷ v ∷ supports) =
      let ih = descend-IsDescended tuning atr price cap fallback n (v ∷ supports) in
      let later = λ (e : is_beyond cap price w ≡ false).
        IsDescended-after tuning price cap fallback
          (descend tuning atr price cap fallback n (v ∷ supports)) n w (v ∷ supports) e ih in
      elim (Bool-cases (is_beyond cap price w)) [
        | inl e ↦ rw e no_leg
        | inr e ↦ elim (Bool-cases (is_beyond cap w (above_floor v))) [
          | inl far ↦ rw (e, far) (later e)
          | inr near ↦ elim (Bool-cases (has_room tuning w (above_floor v))) [
            | inl room ↦
                rw (e, near, room) (armed_at atr w _ (some v) (next_wall e) (to_next near) room)
            | inr room ↦ rw (e, near, room) (later e)
          ]
        ]
      ]

  module _ (order : IsOrdered F) where
    IsDescended-IsHonest :
        (price cap atr s1 : F) (tuning : PaceTuning F) (supports : List F) (g : Geometry F)
        → IsDescended price cap tuning (watch tuning atr price s1) 3 supports g
        → IsHonest price cap tuning true supports g
    IsDescended-IsHonest price cap atr s1 tuning supports g
          (armed_at a wall target next r aim room) =
        breakdown wall next refl refl refl r aim room refl
    IsDescended-IsHonest price cap atr s1 tuning supports g no_leg =
        watching refl refl refl (min-le_right order (above_floor s1) price)

    -- The short plan aims at what the horizon and the level map allow. At once: at the price, for
    -- a target over the first support and within the reach, where the first support is at least the
    -- minimal move away. A breakdown: at one of the first three supports, all up to it within the
    -- reach, for a target over the next support within the reach of the entry, or at the reach
    -- where there is none, with three quarters of the minimal move as room, and neither against
    -- the trend nor with the leg spent. No trade: no trigger, and a target not above the price.
    pub short_geometry-IsHonest :
        (stats : Stats F) (price : F) (supports : List F) (atr budget : F) (tuning : PaceTuning F)
        (countertrend leg_spent : Bool)
        → IsHonest price
            (target_reach stats tuning price budget)
            tuning
            (not (countertrend || leg_spent))
            supports
            (short_geometry stats price supports atr budget tuning countertrend leg_spent)
    unfolding short_geometry
    short_geometry-IsHonest stats price [] atr budget tuning countertrend leg_spent =
        at_once refl refl refl (order.le_refl _) tt
    short_geometry-IsHonest stats price (s1 ∷ supports) atr budget tuning countertrend leg_spent =
        let cap = target_reach stats tuning price budget in
        elim (Bool-cases (lit 1 0 ⊖ s1 ⊘ price ≥? tuning.min_move)) [
          | inl e ↦ rw e (at_once refl refl refl (le-max_right order _ _) (le-max order _ _, e))
          | inr e ↦ elim (Bool-cases countertrend) [
            | inl c ↦
                rw (e, c) (watching refl refl refl (min-le_right order (above_floor s1) price))
            | inr c ↦ elim (Bool-cases leg_spent) [
              | inl q ↦
                  rw (e, c, q) (watching refl refl refl (min-le_right order (above_floor s1) price))
              | inr q ↦
                  rw (e, c, q)
                    (IsDescended-IsHonest price cap atr s1 tuning (s1 ∷ supports) _ (
                      descend-IsDescended tuning atr price cap (watch tuning atr price s1) 3
                        (s1 ∷ supports)))
            ]
          ]
        ]
