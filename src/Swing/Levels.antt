-- ===== src/Swing/Levels.antt =====
-- The level map: `_merged_levels` of stockanalyzer/explain/swing.py.
use stock_graph_analyzer.Base.{
  Bool, false, not, Option, some, none, List, [], ◌∷◌, if◌then◌else◌, filter,
}
use stock_graph_analyzer.Float.{Float, ◌⊕◌, ◌⊖◌, ◌⊘◌, ◌<?◌, ◌>?◌, ◌=?◌, lit, neg, max, min}
use stock_graph_analyzer.Frames.{Timeframe, timeframe_eq, m1, m6, y1, y5}
use stock_graph_analyzer.Swing.{SwingReport, AllReports, report_at, values_of}

-- the walls and the supports, sorted upwards
abbrev pub Sides : Type 0 → Type 0
Sides F = List F × List F

abbrev pub is_decision : Option Timeframe → Timeframe → Bool
is_decision none tf = false
is_decision (some d) tf = timeframe_eq d tf

module _ {F : Type 0} ⦃f : Float F⦄ where
  -- `sorted` of a set, each value once
  unfoldable pub add_level : F → List F → List F
  add_level x [] = x ∷ []
  add_level x (y ∷ ys) =
      let rest = add_level x ys in
      if x =? y then y ∷ ys else if x <? y then x ∷ y ∷ ys else y ∷ rest

  abbrev pub add_levels : List F → List F → List F
  add_levels [] levels = levels
  add_levels (x ∷ xs) levels = add_levels xs (add_level x levels)

  abbrev pub maximum : F → List F → F
  maximum x [] = x
  maximum x (y ∷ ys) = maximum (max x y) ys

  abbrev minimum : F → List F → F
  minimum x [] = x
  minimum x (y ∷ ys) = minimum (min x y) ys

  -- the largest and the smallest value of a column
  abbrev pub highest : List F → Option F
  highest [] = none
  highest (x ∷ xs) = some (maximum x xs)

  abbrev pub lowest : List F → Option F
  lowest [] = none
  lowest (x ∷ xs) = some (minimum x xs)

  abbrev pub add_high : F → Option F → List F → List F
  add_high bound none walls = walls
  add_high bound (some hi) walls = if hi >? bound then add_level hi walls else walls

  abbrev pub add_low : F → Option F → List F → List F
  add_low bound none supports = supports
  add_low bound (some lo) supports = if lo <? bound then add_level lo supports else supports

  -- one other report: its levels, and its extremes outside the noise band
  unfoldable pub add_report : F → F → SwingReport F → Sides F → Sides F
  unfolding add_level
  add_report price noise rep (walls, supports) = (
    add_high (price ⊕ noise) (highest (values_of (λ b. some b.high) rep.bars))
        (add_levels (filter (λ x. x >? price) rep.levels) walls),
    add_low (price ⊖ noise) (lowest (values_of (λ b. some b.low) rep.bars))
        (add_levels (filter (λ x. not (x >? price)) rep.levels) supports),
  )

  -- `decision` is where the decision report stands among the reports, which the loop leaves out
  abbrev pub add_frame :
      F → F → Option Timeframe → Timeframe → Option (SwingReport F) → Sides F → Sides F
  add_frame price noise decision tf none sides = sides
  add_frame price noise decision tf (some rep) sides =
      if is_decision decision tf then sides else add_report price noise rep sides

  abbrev pub add_frames :
      F → F → Option Timeframe → AllReports F → List Timeframe → Sides F → Sides F
  add_frames price noise decision reports [] sides = sides
  add_frames price noise decision reports (tf ∷ tfs) sides =
      add_frames price noise decision reports tfs
        (add_frame price noise decision tf (report_at reports tf) sides)

  abbrev pub absolute : F → F
  absolute x = if x <? lit 0 0 then neg x else x

  -- `_LEVEL_CLUSTER_PCT`
  abbrev pub level_cluster : F
  level_cluster = lit 6 3

  -- `_cluster`, from the nearest level on; `kept` is the last level that was kept
  unfoldable pub cluster_after : F → List F → List F
  cluster_after kept [] = []
  cluster_after kept (v ∷ vs) =
      let skipped = cluster_after kept vs in
      let after = cluster_after v vs in
      if absolute (v ⊘ kept ⊖ lit 1 0) <? level_cluster then skipped else v ∷ after

  unfoldable pub cluster : List F → List F
  unfolding cluster_after
  cluster [] = []
  cluster (v ∷ vs) = v ∷ cluster_after v vs

  abbrev pub reverse_onto : List F → List F → List F
  reverse_onto done [] = done
  reverse_onto done (x ∷ xs) = reverse_onto (x ∷ done) xs

  unfoldable pub merged_levels : SwingReport F → Option Timeframe → AllReports F → F → F → Sides F
  unfolding cluster add_report add_level
  merged_levels report decision reports price noise =
      let sides : Sides F = add_frames price noise decision reports (m1 ∷ m6 ∷ y1 ∷ y5 ∷ []) (
        add_levels (filter (λ x. x >? price) report.levels) [],
        add_levels (filter (λ x. x <? price) report.levels) [],
      ) in
      (cluster sides.0, cluster (reverse_onto [] sides.1))
