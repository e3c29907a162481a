-- ===== src/Swing/Spacing.antt =====
-- How far apart the levels of the map are: `_cluster` of stockanalyzer/explain/swing.py.
use stock_graph_analyzer.Base.{
  ◌≡◌, Bool, true, false, List, [], ◌∷◌, filter, All, Bool-cases, inl, inr,
}
use stock_graph_analyzer.Float.{Float, ◌⊖◌, ◌⊘◌, ◌<?◌, ◌=?◌, lit}
use stock_graph_analyzer.Swing.Levels.{
  add_level, add_levels, cluster, cluster_after, level_cluster, reverse_onto, absolute,
}

module _ {F : Type 0} ⦃f : Float F⦄ where
  -- no level within 0.6 % of the one kept before it
  abbrev pub IsSpacedFrom : F → List F → Type 0
  IsSpacedFrom kept [] = Unit {0}
  IsSpacedFrom kept (v ∷ vs) =
      ((absolute (v ⊘ kept ⊖ lit 1 0) <? level_cluster) ≡ false) × IsSpacedFrom v vs

  abbrev pub IsSpaced : List F → Type 0
  IsSpaced [] = Unit {0}
  IsSpaced (v ∷ vs) = IsSpacedFrom v vs

  cluster_after-IsSpacedFrom : (kept : F) (vs : List F) → IsSpacedFrom kept (cluster_after kept vs)
  unfolding cluster_after
  cluster_after-IsSpacedFrom kept [] = tt
  cluster_after-IsSpacedFrom kept (v ∷ vs) =
      let skipped = cluster_after-IsSpacedFrom kept vs in
      let taken = cluster_after-IsSpacedFrom v vs in
      elim (Bool-cases (absolute (v ⊘ kept ⊖ lit 1 0) <? level_cluster)) [
        | inl e ↦ rw e skipped
        | inr e ↦ rw e (e, taken)
      ]

  pub cluster-IsSpaced : (vs : List F) → IsSpaced (cluster vs)
  unfolding cluster
  cluster-IsSpaced [] = tt
  cluster-IsSpaced (v ∷ vs) = cluster_after-IsSpacedFrom v vs

  module _ (P : F → Type 0) where
    pub All-add_level : (x : F) (ys : List F) → P x → All P ys → All P (add_level x ys)
    unfolding add_level
    All-add_level x [] p ps = (p, ps)
    All-add_level x (y ∷ ys) p (q, qs) =
        let later = All-add_level x ys p qs in
        elim (Bool-cases (x =? y)) [
          | inl e ↦ rw e (q, qs)
          | inr e ↦ elim (Bool-cases (x <? y)) [
            | inl l ↦ rw (e, l) (p, (q, qs))
            | inr l ↦ rw (e, l) (q, later)
          ]
        ]

    pub All-add_levels :
        (xs levels : List F) → All P xs → All P levels → All P (add_levels xs levels)
    All-add_levels [] levels ps qs = qs
    All-add_levels (x ∷ xs) levels (p, ps) qs =
        All-add_levels xs (add_level x levels) ps (All-add_level x levels p qs)

    All-cluster_after : (kept : F) (vs : List F) → All P vs → All P (cluster_after kept vs)
    unfolding cluster_after
    All-cluster_after kept [] ps = ps
    All-cluster_after kept (v ∷ vs) (p, ps) =
        let skipped = All-cluster_after kept vs ps in
        let taken = All-cluster_after v vs ps in
        elim (Bool-cases (absolute (v ⊘ kept ⊖ lit 1 0) <? level_cluster)) [
          | inl e ↦ rw e skipped
          | inr e ↦ rw e (p, taken)
        ]

    pub All-cluster : (vs : List F) → All P vs → All P (cluster vs)
    unfolding cluster
    All-cluster [] ps = ps
    All-cluster (v ∷ vs) (p, ps) = (p, All-cluster_after v vs ps)

    pub All-reverse_onto : (done xs : List F) → All P done → All P xs → All P (reverse_onto done xs)
    All-reverse_onto done [] ds ps = ds
    All-reverse_onto done (x ∷ xs) ds (p, ps) = All-reverse_onto (x ∷ done) xs (p, ds) ps

  pub All-filter : (test : F → Bool) (xs : List F) → All (λ x. test x ≡ true) (filter test xs)
  All-filter test [] = tt
  All-filter test (x ∷ xs) =
      let later = All-filter test xs in
      elim (Bool-cases (test x)) [ inl e ↦ rw e (e, later) | inr e ↦ rw e later ]
