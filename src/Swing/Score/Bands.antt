-- ===== src/Swing/Score/Bands.antt =====
-- What the score of stockanalyzer/explain/swing.py can reach, and what its label says.
use stock_graph_analyzer.Base.{
  ℕ, ◌≡◌, ◌≤◌, ◌*◌, ◌⊎◌, inl, inr, Bool, true, false, List, [], ◌∷◌, ◌++◌, arith, Bool-cases, refl,
  not, ◌||◌, ◌&&◌, ◌==◌, if◌then◌else◌,
}
use mathlib.Core.List.{append-nil}
use stock_graph_analyzer.Float.{Float, IsOrdered, ◌≤?◌, ◌≥?◌, ◌<?◌, ◌⊕◌, lit, min}
use stock_graph_analyzer.Float.Order.{min-le, min-le_right}
use stock_graph_analyzer.Swing.{Geometry}
use stock_graph_analyzer.Swing.Checks.{
  SwingCheck, row, confluence, clear_path, soft_rsi, range_half,
}
use stock_graph_analyzer.Swing.Score.{
  ScoreLabel, strong, good, weak_wait, avoid, denom_halves, earned, base_pct, bonus_of,
  rebound_hits, is_core, has_ok, aim_pct, score_label, swing_score,
}

earned-le-denom : (checks : List SwingCheck) → 2 * earned checks ≤ denom_halves checks
unfolding earned denom_halves
earned-le-denom [] = omega arith
earned-le-denom (c ∷ cs) = ground (arith, earned-le-denom cs)

-- how many of the two rebound rows are earned
abbrev IsOne : Bool → Bool → Type 0
IsOne soft half = ((soft ≡ true) × (half ≡ false)) ⊎ ((soft ≡ false) × (half ≡ true))

module _ {F : Type 0} ⦃f : Float F⦄ where
  pub data IsBand (pct : F) : ScoreLabel → Type 0 where
    is_strong : (pct ≥? lit 75 0) ≡ true → IsBand pct strong
    is_good : (pct ≥? lit 75 0) ≡ false → (pct ≥? lit 55 0) ≡ true → IsBand pct good
    is_weak : (pct ≥? lit 55 0) ≡ false → (pct ≥? lit 35 0) ≡ true → IsBand pct weak_wait
    is_avoid : (pct ≥? lit 35 0) ≡ false → IsBand pct avoid

  score_label-IsBand : (pct : F) → IsBand pct (score_label pct)
  unfolding score_label
  score_label-IsBand pct = elim (Bool-cases (pct ≥? lit 75 0)) [
    | inl a ↦ rw a (is_strong a)
    | inr a ↦ elim (Bool-cases (pct ≥? lit 55 0)) [
      | inl b ↦ rw (a, b) (is_good a b)
      | inr b ↦ elim (Bool-cases (pct ≥? lit 35 0)) [
        | inl c ↦ rw (a, b, c) (is_weak b c)
        | inr c ↦ rw (a, b, c) (is_avoid c)
      ]
    ]
  ]

  -- the cluster of conditions under the bonus
  pub record IsElite (setup_present countertrend : Bool) (rr : F) (checks : List SwingCheck)
      : Type 0 where
    pub setup : setup_present ≡ true
    pub with_trend : countertrend ≡ false
    pub rewarding : (rr ≥? lit 15 1) ≡ true
    pub clear : has_ok clear_path checks ≡ true

  -- the bonus, and the rows shown
  pub data HasBonus (setup_present countertrend : Bool) (rr : F) (checks : List SwingCheck)
      : ℕ → List SwingCheck → Type 0 where
    no_bonus :
        (setup_present
            && (not countertrend
                && (rr ≥? lit 15 1
                    && (has_ok clear_path checks
                        && (has_ok soft_rsi checks || has_ok range_half checks)))))
          ≡ false
        → HasBonus setup_present countertrend rr checks 0 checks
    one_hit :
        IsElite setup_present countertrend rr checks
        → IsOne (has_ok soft_rsi checks) (has_ok range_half checks)
        → HasBonus setup_present countertrend rr checks 8 (checks ++ (row confluence true 0 ∷ []))
    both_hits :
        IsElite setup_present countertrend rr checks
        → has_ok soft_rsi checks ≡ true
        → has_ok range_half checks ≡ true
        → HasBonus setup_present countertrend rr checks 12 (checks ++ (row confluence true 0 ∷ []))

  core-IsElite :
      (setup_present countertrend : Bool) (rr : F) (checks : List SwingCheck)
      → is_core setup_present countertrend rr checks ≡ true
      → IsElite setup_present countertrend rr checks
  core-IsElite setup_present countertrend rr checks h = record {
    setup = ground arith;
    with_trend = ground arith;
    rewarding = ground arith;
    clear = ground arith;
  }

  bonus_of-HasBonus :
      (setup_present countertrend : Bool) (rr : F) (checks : List SwingCheck)
      → HasBonus setup_present countertrend rr checks
          (bonus_of (is_core setup_present countertrend rr checks) checks)
          (checks
            ++ (if bonus_of (is_core setup_present countertrend rr checks) checks == 0
                then []
                else row confluence true 0 ∷ []))
  unfolding bonus_of rebound_hits
  bonus_of-HasBonus setup_present countertrend rr checks =
      elim (Bool-cases (is_core setup_present countertrend rr checks)) [
        | inr e ↦ rw (e, append-nil checks) (no_bonus (ground arith))
        | inl e ↦
            let elite = core-IsElite setup_present countertrend rr checks e in
            elim (Bool-cases (has_ok soft_rsi checks)) [
              | inl a ↦ elim (Bool-cases (has_ok range_half checks)) [
                | inl b ↦ rw (e, a, b) (both_hits elite a b)
                | inr b ↦ rw (e, a, b) (one_hit elite (inl (a, b)))
              ]
              | inr a ↦ elim (Bool-cases (has_ok range_half checks)) [
                | inl b ↦ rw (e, a, b) (one_hit elite (inr (a, b)))
                | inr b ↦ rw (e, a, b, append-nil checks) (no_bonus (ground arith))
              ]
            ]
      ]

  -- a plan whose target is under 3 % away: the score is capped, and the label is one of the lower two
  pub record IsNear (pct : F) (label : ScoreLabel) : Type 0 where
    pub capped : (pct ≤? lit 40 0) ≡ true
    pub low : (label ≡ weak_wait) ⊎ (label ≡ avoid)

  -- what a scored setup is: its conditions, the rows before the bonus, and the result
  pub data IsScored (setup_present countertrend : Bool) (rr : F) (geom : Geometry F)
      (checks : List SwingCheck) : F × ScoreLabel × List SwingCheck → Type 0 where
    scored :
        (pct : F) (label : ScoreLabel) (bonus : ℕ) (shown : List SwingCheck)
        → (pct ≤? lit 100 0) ≡ true
        → ((aim_pct geom <? lit 3 0) ≡ false) ⊎ IsNear pct label
        → IsBand pct label
        → 2 * earned checks ≤ denom_halves checks
        → HasBonus setup_present countertrend rr checks bonus shown
        → (pct ≤? base_pct checks ⊕ lit bonus 0) ≡ true
        → IsScored setup_present countertrend rr geom checks (pct, label, shown)

  module _ (order : IsOrdered F) where
    band-low :
        (pct : F) (label : ScoreLabel)
        → f.le (lit 75 0) (lit 40 0) ≡ false
        → f.le (lit 55 0) (lit 40 0) ≡ false
        → (pct ≤? lit 40 0) ≡ true
        → IsBand pct label
        → (label ≡ weak_wait) ⊎ (label ≡ avoid)
    band-low pct strong h k c (is_strong a) =
        ground (arith, order.le_trans (lit 75 0) pct (lit 40 0) a c)
    band-low pct good h k c (is_good b a) =
        ground (arith, order.le_trans (lit 55 0) pct (lit 40 0) a c)
    band-low pct weak_wait h k c (is_weak b a) = inl refl
    band-low pct avoid h k c (is_avoid a) = inr refl

    -- Where 40 is less than the bounds 55 and 75 of the upper labels: the score is at most 100 and at
    -- most the earned share of the weights with the bonus, and where the aim is under 3 % it is at most
    -- 40 and the label one of the lower two. The earned weight never exceeds the weight it is divided
    -- by. The label is that of the score's band. The bonus is 8 for one rebound row earned and 12 for
    -- both, exactly where the setup is there and not countertrend, its reward is 1.5 times the risk and
    -- the clear path is earned; then it is shown in a row, and otherwise the rows are as they were.
    pub swing_score-IsScored :
        f.le (lit 75 0) (lit 40 0) ≡ false
        → f.le (lit 55 0) (lit 40 0) ≡ false
        → (setup_present countertrend : Bool) (rr : F) (geom : Geometry F)
          (checks : List SwingCheck)
        → IsScored setup_present countertrend rr geom checks
            (swing_score setup_present countertrend rr geom checks)
    unfolding swing_score
    swing_score-IsScored h k setup_present countertrend rr geom checks =
        let core = is_core setup_present countertrend rr checks in
        let sum : F = base_pct checks ⊕ lit (bonus_of core checks) 0 in
        let most = min-le order (lit 100 0) sum in
        let share = min-le_right order (lit 100 0) sum in
        let raised : F = min (lit 100 0) sum in
        let capped : F = min raised (lit 40 0) in
        let bonus = bonus_of-HasBonus setup_present countertrend rr checks in
        elim (Bool-cases (aim_pct geom <? lit 3 0)) [
          | inl e ↦
              let near : IsNear capped (score_label capped) = record {
                capped = min-le_right order raised (lit 40 0);
                low =
                    band-low capped (score_label capped) h k (min-le_right order raised (lit 40 0))
                      (score_label-IsBand capped);
              } in
              rw e (
                scored _ _ _ _ (order.le_trans _ _ _ (min-le order raised (lit 40 0)) most)
                  (inr near) (score_label-IsBand _) (earned-le-denom checks) bonus
                  (order.le_trans _ _ _ (min-le order raised (lit 40 0)) share))
          | inr e ↦ rw e (
              scored _ _ _ _ most (inl e) (score_label-IsBand _) (earned-le-denom checks) bonus
                share)
        ]
