-- ===== src/Radar/Levels.antt =====
-- The levels of a notice: stockanalyzer/swingwatch.py.
use stock_graph_analyzer.Base.{
  ℕ, ◌≡◌, ◌⊎◌, refl, true, false, Option, none, some, [], ◌∷◌, if◌then◌else◌, filter, ltb, All,
  arith, Bool-cases, inl, inr,
}
use stock_graph_analyzer.Float.{Float, IsOrdered, lit, ◌≥?◌}
use stock_graph_analyzer.Radar.Watch.{notice_level, new_notice}

module _ {F : Type 0} ⦃f : Float F⦄ where
  -- the notice that a score gives after a score before
  pub data IsNotice (before score : F) : Option ℕ → Type 0 where
    climbed :
        (level : ℕ)
        → (level ≡ 60) ⊎ ((level ≡ 70) ⊎ (level ≡ 80))
        → (score ≥? lit level 0) ≡ true
        → (before ≥? lit level 0) ≡ false
        → All (λ lv. (score ≥? lit lv 0) ≡ false) (filter (ltb level) (60 ∷ 70 ∷ 80 ∷ []))
        → IsNotice before score (some level)
    kept :
        All
          (λ lv. ((score ≥? lit lv 0) ≡ false) ⊎ ((before ≥? lit lv 0) ≡ true))
          (60 ∷ 70 ∷ 80 ∷ [])
        → IsNotice before score none

  -- the highest level that a score reaches
  data IsReached (x : F) (level : ℕ) : Type 0 where
    below :
        (x ≥? lit 60 0) ≡ false
        → (x ≥? lit 70 0) ≡ false
        → (x ≥? lit 80 0) ≡ false
        → level ≡ 0
        → IsReached x level
    first :
        (x ≥? lit 60 0) ≡ true
        → (x ≥? lit 70 0) ≡ false
        → (x ≥? lit 80 0) ≡ false
        → level ≡ 60
        → IsReached x level
    second :
        (x ≥? lit 60 0) ≡ true
        → (x ≥? lit 70 0) ≡ true
        → (x ≥? lit 80 0) ≡ false
        → level ≡ 70
        → IsReached x level
    third :
        (x ≥? lit 60 0) ≡ true
        → (x ≥? lit 70 0) ≡ true
        → (x ≥? lit 80 0) ≡ true
        → level ≡ 80
        → IsReached x level

  reached-IsNotice :
      (before score : F) (m n : ℕ)
      → IsReached before m
      → IsReached score n
      → IsNotice before score (if ltb m n then some n else none)
  reached-IsNotice before score m n (below a b c e) (below u v w g) =
      rw (e, g) (kept (ground arith))
  reached-IsNotice before score m n (below a b c e) (first u v w g) =
      rw (e, g) (climbed 60 (inl refl) u a (ground arith))
  reached-IsNotice before score m n (below a b c e) (second u v w g) =
      rw (e, g) (climbed 70 (inr (inl refl)) v b (ground arith))
  reached-IsNotice before score m n (below a b c e) (third u v w g) =
      rw (e, g) (climbed 80 (inr (inr refl)) w c (ground arith))
  reached-IsNotice before score m n (first a b c e) (below u v w g) =
      rw (e, g) (kept (ground arith))
  reached-IsNotice before score m n (first a b c e) (first u v w g) =
      rw (e, g) (kept (ground arith))
  reached-IsNotice before score m n (first a b c e) (second u v w g) =
      rw (e, g) (climbed 70 (inr (inl refl)) v b (ground arith))
  reached-IsNotice before score m n (first a b c e) (third u v w g) =
      rw (e, g) (climbed 80 (inr (inr refl)) w c (ground arith))
  reached-IsNotice before score m n (second a b c e) (below u v w g) =
      rw (e, g) (kept (ground arith))
  reached-IsNotice before score m n (second a b c e) (first u v w g) =
      rw (e, g) (kept (ground arith))
  reached-IsNotice before score m n (second a b c e) (second u v w g) =
      rw (e, g) (kept (ground arith))
  reached-IsNotice before score m n (second a b c e) (third u v w g) =
      rw (e, g) (climbed 80 (inr (inr refl)) w c (ground arith))
  reached-IsNotice before score m n (third a b c e) (below u v w g) =
      rw (e, g) (kept (ground arith))
  reached-IsNotice before score m n (third a b c e) (first u v w g) =
      rw (e, g) (kept (ground arith))
  reached-IsNotice before score m n (third a b c e) (second u v w g) =
      rw (e, g) (kept (ground arith))
  reached-IsNotice before score m n (third a b c e) (third u v w g) =
      rw (e, g) (kept (ground arith))

  module _ (order : IsOrdered F) (low : f.le (lit 60 0) (lit 70 0) ≡ true)
      (high : f.le (lit 70 0) (lit 80 0) ≡ true) where
    notice_level-IsReached : (x : F) → IsReached x (notice_level x)
    unfolding notice_level
    notice_level-IsReached x =
        let down : (x ≥? lit 80 0) ≡ true → (x ≥? lit 70 0) ≡ true =
          order.le_trans (lit 70 0) (lit 80 0) x high in
        let lower : (x ≥? lit 70 0) ≡ true → (x ≥? lit 60 0) ≡ true =
          order.le_trans (lit 60 0) (lit 70 0) x low in
        elim (Bool-cases (x ≥? lit 80 0)) [
          | inl c ↦ third (lower (down c)) (down c) c (rw (c, down c, lower (down c)) refl)
          | inr c ↦ elim (Bool-cases (x ≥? lit 70 0)) [
            | inl b ↦ second (lower b) b c (rw (c, b, lower b) refl)
            | inr b ↦ elim (Bool-cases (x ≥? lit 60 0)) [
              | inl a ↦ first a b c (rw (c, b, a) refl)
              | inr a ↦ below a b c (rw (c, b, a) refl)
            ]
          ]
        ]

    pub new_notice-IsNotice :
        (before score : F) → IsNotice before score (new_notice (notice_level before) score)
    unfolding new_notice
    new_notice-IsNotice before score =
        reached-IsNotice before score (notice_level before) (notice_level score)
          (notice_level-IsReached before) (notice_level-IsReached score)
