-- ===== src/Swing/LevelMap.antt =====
-- On which side of the price the levels stand: `_merged_levels` of stockanalyzer/explain/swing.py.
use stock_graph_analyzer.Base.{
  ◌≡◌, true, false, not, Option, some, none, List, [], ◌∷◌, filter, All, arith, Bool-cases, inl,
  inr,
}
use stock_graph_analyzer.Float.{Float, IsOrdered, ◌⊕◌, ◌⊖◌, ◌<?◌, ◌>?◌, ◌≤?◌}
use stock_graph_analyzer.Float.Order.{le-lt}
use stock_graph_analyzer.Frames.{Timeframe, m1, m6, y1, y5}
use stock_graph_analyzer.Swing.{SwingReport, AllReports, report_at}
use stock_graph_analyzer.Swing.Levels.{
  Sides, add_levels, add_report, add_high, add_low, add_frame, add_frames, is_decision,
  reverse_onto, merged_levels,
}
use stock_graph_analyzer.Swing.Spacing.{
  IsSpaced, cluster-IsSpaced, All-add_level, All-add_levels, All-cluster, All-reverse_onto,
  All-filter,
}

module _ {F : Type 0} ⦃f : Float F⦄ where
  abbrev pub IsAbove : F → F → Type 0
  IsAbove price x = (x >? price) ≡ true

  abbrev pub IsNotAbove : F → F → Type 0
  IsNotAbove price x = (x >? price) ≡ false

  abbrev pub IsLevelMap : F → Sides F → Type 0
  IsLevelMap price sides =
      (All (IsAbove price) sides.0 × IsSpaced sides.0)
      × (All (IsNotAbove price) sides.1 × IsSpaced sides.1)

  abbrev IsSided : F → Sides F → Type 0
  IsSided price sides = All (IsAbove price) sides.0 × All (IsNotAbove price) sides.1

  module _ (order : IsOrdered F) where
    lt_of_le_lt : (x y z : F) → (x ≤? y) ≡ true → (y <? z) ≡ true → (x <? z) ≡ true
    lt_of_le_lt x y z p q = elim (Bool-cases (z ≤? x)) [
      | inl r ↦ ground (arith, order.lt_not_le y z, order.le_trans z x y r p)
      | inr r ↦ ground (arith, order.lt_not_le x z)
    ]

    le-IsNotAbove : (price x : F) → (x ≤? price) ≡ true → IsNotAbove price x
    le-IsNotAbove price x p = ground (arith, order.lt_not_le price x)

    not-IsNotAbove :
        (price : F) (xs : List F)
        → All (λ x. not (x >? price) ≡ true) xs
        → All (IsNotAbove price) xs
    not-IsNotAbove price [] ps = tt
    not-IsNotAbove price (x ∷ xs) (p, ps) = (ground arith, not-IsNotAbove price xs ps)

    below-IsNotAbove :
        (price : F) (xs : List F) → All (λ x. (x <? price) ≡ true) xs → All (IsNotAbove price) xs
    below-IsNotAbove price [] ps = tt
    below-IsNotAbove price (x ∷ xs) (p, ps) =
        (le-IsNotAbove price x (le-lt order x price p), below-IsNotAbove price xs ps)

    module _ (price noise : F) (up : (price ≤? price ⊕ noise) ≡ true)
        (down : (price ⊖ noise ≤? price) ≡ true) where
      add_high-IsAbove :
          (o : Option F) (walls : List F)
          → All (IsAbove price) walls
          → All (IsAbove price) (add_high (price ⊕ noise) o walls)
      add_high-IsAbove none walls ps = ps
      add_high-IsAbove (some hi) walls ps = elim (Bool-cases (hi >? price ⊕ noise)) [
        | inl e ↦ rw e (All-add_level (IsAbove price) hi walls (lt_of_le_lt price _ hi up e) ps)
        | inr e ↦ rw e ps
      ]

      add_low-IsNotAbove :
          (o : Option F) (supports : List F)
          → All (IsNotAbove price) supports
          → All (IsNotAbove price) (add_low (price ⊖ noise) o supports)
      add_low-IsNotAbove none supports ps = ps
      add_low-IsNotAbove (some lo) supports ps = elim (Bool-cases (lo <? price ⊖ noise)) [
        | inl e ↦ rw e (
            All-add_level (IsNotAbove price) lo supports
              (le-IsNotAbove price lo (order.le_trans _ _ _ (le-lt order lo _ e) down)) ps)
        | inr e ↦ rw e ps
      ]

      add_report-IsSided :
          (rep : SwingReport F) (sides : Sides F)
          → IsSided price sides
          → IsSided price (add_report price noise rep sides)
      unfolding add_report
      add_report-IsSided rep (walls, supports) (above, below) = (
        add_high-IsAbove _ _
            (All-add_levels (IsAbove price) _ walls (All-filter _ rep.levels) above),
        add_low-IsNotAbove _ _ (
            All-add_levels (IsNotAbove price) _ supports
              (not-IsNotAbove price _ (All-filter _ rep.levels)) below),
      )

      add_frame-IsSided :
          (decision : Option Timeframe) (tf : Timeframe) (o : Option (SwingReport F))
          (sides : Sides F)
          → IsSided price sides
          → IsSided price (add_frame price noise decision tf o sides)
      add_frame-IsSided decision tf none sides p = p
      add_frame-IsSided decision tf (some rep) sides p =
          elim (Bool-cases (is_decision decision tf)) [
            | inl e ↦ rw e p
            | inr e ↦ rw e (add_report-IsSided rep sides p)
          ]

      add_frames-IsSided :
          (decision : Option Timeframe) (reports : AllReports F) (tfs : List Timeframe)
          (sides : Sides F)
          → IsSided price sides
          → IsSided price (add_frames price noise decision reports tfs sides)
      add_frames-IsSided decision reports [] sides p = p
      add_frames-IsSided decision reports (tf ∷ tfs) sides p =
          add_frames-IsSided decision reports tfs _
            (add_frame-IsSided decision tf (report_at reports tf) sides p)

      -- Every wall of the map is above the price and no support is, and no level is within 0.6 %
      -- of the one before it, where the noise band does not turn around at the price.
      pub merged_levels-IsLevelMap :
          (report : SwingReport F) (decision : Option Timeframe) (reports : AllReports F)
          → IsLevelMap price (merged_levels report decision reports price noise)
      unfolding merged_levels
      merged_levels-IsLevelMap report decision reports =
          let sides : Sides F = add_frames price noise decision reports (m1 ∷ m6 ∷ y1 ∷ y5 ∷ []) (
            add_levels (filter (λ x. x >? price) report.levels) [],
            add_levels (filter (λ x. x <? price) report.levels) [],
          ) in
          let kept = add_frames-IsSided decision reports (m1 ∷ m6 ∷ y1 ∷ y5 ∷ []) _ (
            All-add_levels (IsAbove price) _ [] (All-filter _ report.levels) tt,
            All-add_levels (IsNotAbove price) _ []
                (below-IsNotAbove price _ (All-filter _ report.levels)) tt,
          ) in
          (
            (All-cluster (IsAbove price) _ kept.0, cluster-IsSpaced sides.0),
            (
              All-cluster (IsNotAbove price) _ (All-reverse_onto (IsNotAbove price) [] _ tt kept.1),
              cluster-IsSpaced (reverse_onto [] sides.1),
            ),
          )
