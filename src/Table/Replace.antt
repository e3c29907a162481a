-- ===== src/Table/Replace.antt =====
-- Writing one row of a table whole: `session.flush()` of one changed object
-- (stockanalyzer/auth.py, stockanalyzer/user_management.py).
use stock_graph_analyzer.Base.{
  ◌≡◌, ◌⊎◌, inl, inr, refl, ap, Bool, true, false, some, List, [], ◌∷◌, ◌++◌, ◌||◌, arith, find,
  any, Text, text_eq, text_eq_iff, text_eq_refl, text_eq_comm, Bool-cases,
}
use stock_graph_analyzer.Table.{update, has_id, IsKeyed, update_absent}

module _ {R : Type 0} where
  abbrev pub In : R → List R → Type 0
  In u [] = ⊥
  In u (r ∷ t) = (r ≡ u) ⊎ In u t

  pub find-In :
      (test : R → Bool) (t : List R) (u : R) → find test t ≡ some u → In u t × (test u ≡ true)
  find-In test [] u e = ground arith
  find-In test (r ∷ t) u e = ground (arith, find-In test t u)

module _ {R : Type 0} (id_of : R → Text) where
  pub has_id-replace :
      (j : Text) (v : R) (t : List R)
      → has_id id_of j (update id_of (id_of v) (λ _. v) t) ≡ has_id id_of j t
  unfolding update
  has_id-replace j v [] = refl
  has_id-replace j v (r ∷ t) = ground (arith, has_id-replace j v t, text_eq_iff (id_of r) (id_of v))

  pub has_id-In : (u : R) (t : List R) → In u t → has_id id_of (id_of u) t ≡ true
  has_id-In u [] m = absurd m
  has_id-In u (r ∷ t) (inl m) = ground (arith, ap id_of m, text_eq_refl (id_of u))
  has_id-In u (r ∷ t) (inr m) = ground (arith, has_id-In u t m)

  pub has_id-snoc :
      (j : Text) (t : List R) (p : R)
      → has_id id_of j (t ++ (p ∷ [])) ≡ (has_id id_of j t || text_eq (id_of p) j)
  has_id-snoc j [] p = ground arith
  has_id-snoc j (r ∷ t) p = ground (arith, has_id-snoc j t p)

  pub IsKeyed-replace :
      (v : R) (t : List R) → IsKeyed id_of t → IsKeyed id_of (update id_of (id_of v) (λ _. v) t)
  unfolding update
  IsKeyed-replace v [] k = tt
  IsKeyed-replace v (r ∷ t) (h, k) = elim (Bool-cases (text_eq (id_of r) (id_of v))) [
    | inl e ↦ rw e (
      rw (has_id-replace (id_of v) v t, ← (text_eq_iff (id_of r) (id_of v)).0 e) h,
      IsKeyed-replace v t k,
    )
    | inr e ↦ rw e (rw (has_id-replace (id_of r) v t) h, IsKeyed-replace v t k)
  ]

  In-other :
      (u v r : R) (t : List R)
      → In u t
      → has_id id_of (id_of r) t ≡ false
      → id_of u ≡ id_of v
      → text_eq (id_of r) (id_of v) ≡ false
  In-other u v r t m h e = elim (Bool-cases (text_eq (id_of r) (id_of v))) [
    | inl same ↦
        let there : has_id id_of (id_of r) t ≡ true =
          rw ((text_eq_iff (id_of r) (id_of v)).0 same, ← e) (has_id-In u t m) in
        absurd (ground (arith, there))
    | inr other ↦ other
  ]

  -- a second column that the write leaves alone stays distinct
  pub has_id-column_replace :
      (name_of : R → Text) (j : Text) (u v : R) (t : List R)
      → In u t
      → IsKeyed id_of t
      → id_of u ≡ id_of v
      → name_of u ≡ name_of v
      → has_id name_of j (update id_of (id_of v) (λ _. v) t) ≡ has_id name_of j t
  unfolding update
  has_id-column_replace name_of j u v [] m k e n = absurd m
  has_id-column_replace name_of j u v (r ∷ t) (inl m) (h, k) e n = ground (
    arith,
    ap id_of m,
    ap name_of m,
    text_eq_refl (id_of v),
    update_absent id_of (id_of v) (λ _. v) t,
  )
  has_id-column_replace name_of j u v (r ∷ t) (inr m) (h, k) e n =
      ground (arith, has_id-column_replace name_of j u v t m k e n, In-other u v r t m h e)

  pub IsKeyed-column_replace :
      (name_of : R → Text) (u v : R) (t : List R)
      → In u t
      → IsKeyed id_of t
      → id_of u ≡ id_of v
      → name_of u ≡ name_of v
      → IsKeyed name_of t
      → IsKeyed name_of (update id_of (id_of v) (λ _. v) t)
  unfolding update
  IsKeyed-column_replace name_of u v [] m k e n q = absurd m
  IsKeyed-column_replace name_of u v (r ∷ t) (inl m) (h, k) e n (g, q) = ground (
    arith,
    ap id_of m,
    ap name_of m,
    text_eq_refl (id_of v),
    update_absent id_of (id_of v) (λ _. v) t,
  )
  IsKeyed-column_replace name_of u v (r ∷ t) (inr m) (h, k) e n (g, q) = ground (
    arith,
    has_id-column_replace name_of (name_of r) u v t m k e n,
    IsKeyed-column_replace name_of u v t m k e n q,
    In-other u v r t m h e,
  )

  -- a test that the new row passes if the old one did
  pub any-replace :
      (test : R → Bool) (u v : R) (t : List R)
      → In u t
      → IsKeyed id_of t
      → id_of u ≡ id_of v
      → (test u ≡ true → test v ≡ true)
      → any test t ≡ true
      → any test (update id_of (id_of v) (λ _. v) t) ≡ true
  unfolding update
  any-replace test u v [] m k e n q = absurd m
  any-replace test u v (r ∷ t) (inl m) (h, k) e n q = ground (
    arith,
    ap id_of m,
    ap test m,
    text_eq_refl (id_of v),
    update_absent id_of (id_of v) (λ _. v) t,
  )
  any-replace test u v (r ∷ t) (inr m) (h, k) e n q =
      ground (arith, any-replace test u v t m k e n, In-other u v r t m h e)

  -- a row with another id still passes its test
  pub any-replace_other :
      (test : R → Bool) (a v : R) (t : List R)
      → In a t
      → text_eq (id_of a) (id_of v) ≡ false
      → test a ≡ true
      → any test (update id_of (id_of v) (λ _. v) t) ≡ true
  unfolding update
  any-replace_other test a v [] m n q = absurd m
  any-replace_other test a v (r ∷ t) (inl m) n q = ground (arith, ap id_of m, ap test m)
  any-replace_other test a v (r ∷ t) (inr m) n q =
      ground (arith, any-replace_other test a v t m n q)

  -- looking up by id after the write
  pub find-replace :
      (v : R) (t : List R)
      → has_id id_of (id_of v) t ≡ true
      → find (λ r. text_eq (id_of r) (id_of v)) (update id_of (id_of v) (λ _. v) t) ≡ some v
  unfolding update
  find-replace v [] h = ground arith
  find-replace v (r ∷ t) h = ground (arith, find-replace v t, text_eq_refl (id_of v))

  pub find-replace_other :
      (j : Text) (v : R) (t : List R)
      → text_eq (id_of v) j ≡ false
      → find (λ r. text_eq (id_of r) j) (update id_of (id_of v) (λ _. v) t)
        ≡ find (λ r. text_eq (id_of r) j) t
  unfolding update
  find-replace_other j v [] h = refl
  find-replace_other j v (r ∷ t) h =
      ground (arith, find-replace_other j v t h, text_eq_iff (id_of r) (id_of v))

  pub IsKeyed-snoc :
      (t : List R) (p : R)
      → IsKeyed id_of t
      → has_id id_of (id_of p) t ≡ false
      → IsKeyed id_of (t ++ (p ∷ []))
  IsKeyed-snoc [] p k h = (refl, tt)
  IsKeyed-snoc (r ∷ t) p (k, ks) h =
      ground
        (arith, IsKeyed-snoc t p ks, has_id-snoc (id_of r) t p, text_eq_comm (id_of r) (id_of p))
