-- ===== src/Reversal/Support.antt =====
-- The level that a reversal stands on: `_nearest_support` of stockanalyzer/analysis/reversal.py.
use mathlib.Core.Path.{subst}
use mathlib.Core.Option.{some-injective}
use stock_graph_analyzer.Base.{
  filter-cons_true, filter-cons_false, ◌≡◌, ◌⊎◌, Bool, true, false, ◌&&◌, some, none, List, [], ◌∷◌,
  ◌++◌, filter, map, All, arith, Bool-cases, inl, inr,
}
use stock_graph_analyzer.Float.{Float, IsOrdered, ◌≤?◌, ◌>?◌, ◌⊗◌, ◌⊕◌, lit, round, truthy, max}
use stock_graph_analyzer.Float.Order.{le-max, le-max_right}
use stock_graph_analyzer.Swing.Levels.{maximum, highest}
use stock_graph_analyzer.Reversal.{DayCard, opt, support_candidates, nearest_support}

no_some : {A B : Type 0} (m : A) → none ≡ some m → B
no_some m e = cc e

pub data Listed {A : Type 0} (x : A) : List A → Type 0 where
  here : (xs : List A) → Listed x (x ∷ xs)
  there : (y : A) (xs : List A) → Listed x xs → Listed x (y ∷ xs)

All-filter :
    {A : Type 0} (P : A → Type 0) (test : A → Bool) (xs : List A)
    → All P xs
    → All (λ x. P x × (test x ≡ true)) (filter test xs)
All-filter P test [] h = tt
All-filter P test (x ∷ xs) (p, ps) = elim (Bool-cases (test x)) [
  | inl e ↦ rw e ((p, e), All-filter P test xs ps)
  | inr e ↦ rw e (All-filter P test xs ps)
]

All-unfilter :
    {A : Type 0} (Q : A → Type 0) (test : A → Bool) (xs : List A)
    → All Q (filter test xs)
    → All (λ x. (test x ≡ false) ⊎ Q x) xs
All-unfilter Q test [] h = tt
All-unfilter Q test (x ∷ xs) h = elim (Bool-cases (test x)) [
  | inl e ↦
      let kept : All Q (x ∷ filter test xs) = subst (All Q) (filter-cons_true test x xs e) h in
      (inr kept.0, All-unfilter Q test xs kept.1)
  | inr e ↦ (inl e, All-unfilter Q test xs (subst (All Q) (filter-cons_false test x xs e) h))
]

module _ {F : Type 0} ⦃f : Float F⦄ where
  -- a positive support, session low or battle zone, rounded
  pub data IsLevel (card : DayCard F) : F → Type 0 where
    level :
        (c : F)
        → Listed c (card.supports ++ (opt card.session_low ++ card.battle_zones))
        → (c >? lit 0 0) ≡ true
        → IsLevel card (round c 4)

  -- The level of a price: a level that is at most 0.4 % above the price, and the highest of these.
  pub record IsSupport (card : DayCard F) (price support : F) : Type 0 where
    pub is_level : IsLevel card support
    pub reached : (support ≤? price ⊗ (lit 1 0 ⊕ lit 4 3)) ≡ true
    pub highest :
        All
          (λ c. ((c ≤? price ⊗ (lit 1 0 ⊕ lit 4 3)) ≡ false) ⊎ ((c ≤? support) ≡ true))
          (support_candidates card)

  candidates-IsLevel :
      (card : DayCard F) (xs : List F)
      → ((c : F)
          → Listed c xs
          → Listed c (card.supports ++ (opt card.session_low ++ card.battle_zones)))
      → All (IsLevel card) (map (λ c. round c 4) (filter (λ c. truthy c && (c >? lit 0 0)) xs))
  candidates-IsLevel card [] h = tt
  candidates-IsLevel card (x ∷ xs) h =
      let rest = candidates-IsLevel card xs (λ c l. h c (there x xs l)) in
      elim (Bool-cases (truthy x && (x >? lit 0 0))) [
        | inl e ↦ rw e (level x (h x (here xs)) (ground arith), rest)
        | inr e ↦ rw e rest
      ]

  module _ (order : IsOrdered F) where
    le-maximum : (x : F) (xs : List F) → (x ≤? maximum x xs) ≡ true
    le-maximum x [] = order.le_refl x
    le-maximum x (y ∷ ys) =
        order.le_trans x (max x y) (maximum (max x y) ys) (le-max order x y)
          (le-maximum (max x y) ys)

    All-le-maximum : (x : F) (xs : List F) → All (λ c. (c ≤? maximum x xs) ≡ true) xs
    All-le-maximum x [] = tt
    All-le-maximum x (y ∷ ys) = (
      order.le_trans y (max x y) (maximum (max x y) ys) (le-max_right order x y)
          (le-maximum (max x y) ys),
      All-le-maximum (max x y) ys,
    )

    maximum_is : (P : F → Type 0) (x : F) (xs : List F) → P x → All P xs → P (maximum x xs)
    maximum_is P x [] p ps = p
    maximum_is P x (y ∷ ys) p (q, qs) = elim (Bool-cases (y >? x)) [
      | inl e ↦ maximum_is P (max x y) ys (rw e q) qs
      | inr e ↦ maximum_is P (max x y) ys (rw e p) qs
    ]

    highest_is :
        (P : F → Type 0) (xs : List F) (m : F)
        → highest xs ≡ some m
        → All P xs
        → P m × All (λ c. (c ≤? m) ≡ true) xs
    highest_is P [] m e h = no_some m e
    highest_is P (x ∷ xs) m e (p, ps) =
        subst (λ k. P k × All (λ c. (c ≤? k) ≡ true) (x ∷ xs)) (some-injective (maximum x xs) m e)
          (maximum_is P x xs p ps, (le-maximum x xs, All-le-maximum x xs))

    pub nearest_support-IsSupport :
        (card : DayCard F) (price support : F)
        → nearest_support card price ≡ some support
        → IsSupport card price support
    unfolding nearest_support support_candidates
    nearest_support-IsSupport card price support e =
        let candidates = support_candidates card in
        let levels : All (IsLevel card) candidates =
          candidates-IsLevel card (card.supports ++ (opt card.session_low ++ card.battle_zones))
            (λ c l. l) in
        let both =
          highest_is (λ c. IsLevel card c × ((c ≤? price ⊗ (lit 1 0 ⊕ lit 4 3)) ≡ true))
            (filter (λ c. c ≤? price ⊗ (lit 1 0 ⊕ lit 4 3)) candidates) support e
            (All-filter (IsLevel card) (λ c. c ≤? price ⊗ (lit 1 0 ⊕ lit 4 3)) candidates levels) in
        record {
          is_level = both.0.0;
          reached = both.0.1;
          highest =
              All-unfilter (λ c. (c ≤? support) ≡ true) (λ c. c ≤? price ⊗ (lit 1 0 ⊕ lit 4 3))
                candidates both.1;
        }
