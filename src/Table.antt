-- ===== src/Table.antt =====
-- A database table whose rows have an id: the `SELECT ... WHERE` and `UPDATE ... WHERE id=?` of
-- stockanalyzer/data/store.py, and the loops that select rows and then write them one by one.
pub mod Replace
use stock_graph_analyzer.Base.{
  ◌≡◌, refl, ap, ◌∙◌, Bool, false, List, [], ◌∷◌, map, arith, if◌then◌else◌, filter, any, All, Text,
  text_eq, text_eq_iff, text_eq_comm, filter-cons_true, filter-cons_false, Bool-cases, inl, inr,
}

module _ {ℓ} {R : Type ℓ} (id_of : R → Text) where
  -- `UPDATE ... SET ... WHERE id=?`
  unfoldable pub update : Text → (R → R) → List R → List R
  update i f [] = []
  update i f (r ∷ t) = (if text_eq (id_of r) i then f r else r) ∷ update i f t

  abbrev pub has_id : Text → List R → Bool
  has_id i = any (λ r. text_eq (id_of r) i)

  -- The ids are a primary key.
  abbrev pub IsKeyed : List R → Type 0
  IsKeyed [] = Unit
  IsKeyed (r ∷ t) = (has_id (id_of r) t ≡ false) × IsKeyed t

  -- several writes to one row
  abbrev pub run : List (R → R) → R → R
  run [] r = r
  run (f ∷ fs) r = run fs (f r)

  abbrev pub update_all : Text → List (R → R) → List R → List R
  update_all i [] t = t
  update_all i (f ∷ fs) t = update_all i fs (update i f t)

  -- `for row in rows: ...`, where each row asks for some writes to itself
  abbrev pub write_rows : (R → List (R → R)) → List R → List R → List R
  write_rows acts [] t = t
  write_rows acts (r ∷ rs) t = write_rows acts rs (update_all (id_of r) (acts r) t)

  abbrev pub KeepsId : (R → R) → Type ℓ
  KeepsId f = (r : R) → id_of (f r) ≡ id_of r

  pub id_of-run : (fs : List (R → R)) (r : R) → All KeepsId fs → id_of (run fs r) ≡ id_of r
  id_of-run [] r h = refl
  id_of-run (f ∷ fs) r (h, hs) = id_of-run fs (f r) hs ∙ h r

  pub update_absent : (i : Text) (f : R → R) (t : List R) → has_id i t ≡ false → update i f t ≡ t
  unfolding update
  update_absent i f [] h = refl
  update_absent i f (r ∷ t) h = ground (arith, update_absent i f t)

  update_all_absent :
      (i : Text) (fs : List (R → R)) (t : List R) → has_id i t ≡ false → update_all i fs t ≡ t
  update_all_absent i [] t h = refl
  update_all_absent i (f ∷ fs) t h = rw (update_absent i f t h) (update_all_absent i fs t h)

  update_all_head :
      (i : Text) (fs : List (R → R)) (r : R) (t : List R)
      → All KeepsId fs
      → id_of r ≡ i
      → has_id i t ≡ false
      → update_all i fs (r ∷ t) ≡ run fs r ∷ t
  unfolding update
  update_all_head i [] r t ks e h = refl
  update_all_head i (f ∷ fs) r t (k, ks) e h =
      rw (update_absent i f t h, (text_eq_iff (id_of r) i).1 e)
        (update_all_head i fs (f r) t ks (k r ∙ e) h)

  update_all_other :
      (i : Text) (fs : List (R → R)) (r : R) (t : List R)
      → text_eq (id_of r) i ≡ false
      → update_all i fs (r ∷ t) ≡ r ∷ update_all i fs t
  unfolding update
  update_all_other i [] r t h = refl
  update_all_other i (f ∷ fs) r t h = rw h (update_all_other i fs r (update i f t) h)

  write_rows-cons :
      (acts : R → List (R → R)) (rs : List R) (r : R) (t : List R)
      → has_id (id_of r) rs ≡ false
      → write_rows acts rs (r ∷ t) ≡ r ∷ write_rows acts rs t
  write_rows-cons acts [] r t h = refl
  write_rows-cons acts (s ∷ rs) r t h =
      rw
        (update_all_other (id_of s) (acts s) r t (ground (arith, text_eq_comm (id_of s) (id_of r))))
        (write_rows-cons acts rs r (update_all (id_of s) (acts s) t) (ground arith))

  pub has_id-filter :
      (i : Text) (sel : R → Bool) (t : List R)
      → has_id i t ≡ false
      → has_id i (filter sel t) ≡ false
  has_id-filter i sel [] h = refl
  has_id-filter i sel (r ∷ t) h = ground (arith, has_id-filter i sel t)

  write_rows-head :
      (acts : R → List (R → R)) (rs : List R) (r : R) (t : List R)
      → All KeepsId (acts r)
      → has_id (id_of r) t ≡ false
      → has_id (id_of r) rs ≡ false
      → write_rows acts (r ∷ rs) (r ∷ t) ≡ run (acts r) r ∷ write_rows acts rs t
  write_rows-head acts rs r t ks h k =
      rw (update_all_head (id_of r) (acts r) r t ks refl h)
        (write_rows-cons acts rs (run (acts r) r) t (rw (id_of-run (acts r) r ks) k))

  -- Selecting rows and then writing them one by one is one pass over the table.
  pub write_rows-filter :
      (acts : R → List (R → R)) (sel : R → Bool) (t : List R)
      → ((r : R) → All KeepsId (acts r))
      → IsKeyed t
      → write_rows acts (filter sel t) t ≡ map (λ r. if sel r then run (acts r) r else r) t
  write_rows-filter acts sel [] ks k = refl
  write_rows-filter acts sel (r ∷ t) ks (h, k) =
      let absent = has_id-filter (id_of r) sel t h in
      let rest = write_rows-filter acts sel t ks k in
      elim (Bool-cases (sel r)) [
        | inl chosen ↦
            ap (λ rs. write_rows acts rs (r ∷ t)) (filter-cons_true sel r t chosen)
            ∙ write_rows-head acts (filter sel t) r t (ks r) h absent
            ∙ rw (chosen, rest)
        | inr skipped ↦
            ap (λ rs. write_rows acts rs (r ∷ t)) (filter-cons_false sel r t skipped)
            ∙ write_rows-cons acts (filter sel t) r t absent
            ∙ rw (skipped, rest)
      ]
