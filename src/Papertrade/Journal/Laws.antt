-- ===== src/Papertrade/Journal/Laws.antt =====
-- Repeated evaluation and repeated insertion in the journal of propositions
-- (stockanalyzer/papertrade.py, stockanalyzer/data/store.py).
use stock_graph_analyzer.Base.{
  ◌≡◌, refl, Option, some, none, List, [], ◌∷◌, ◌++◌, ℕ, arith, true, false, not, ◌&&◌, ◌||◌,
  text_eq, any, All, if◌then◌else◌, ap, Bool, Bool-cases, inl, inr, Text, ◌==◌, map,
}
use stock_graph_analyzer.Float.{Float, ◌<?◌, IsOrdered}
use stock_graph_analyzer.Papertrade.{is_final, Judged}
use stock_graph_analyzer.Papertrade.Journal.{
  PaperTrade, DatedBar, cutoff, is_duplicate, recent_paper_duplicate, insert_paper_trade,
  evaluate_record, judged_on, set_judged, evaluate_rows, evaluate_all,
}

map-again :
    {A : Type 0} (g : A → A) (xs : List A) → ((x : A) → g (g x) ≡ g x) → map g (map g xs) ≡ map g xs
map-again g [] h = refl
map-again g (x ∷ xs) h = rw (h x, map-again g xs h)

module _ {F : Type 0} ⦃f : Float F⦄ where
  judged_on-again :
      (alert_day : F → ℕ) (df : Option (List (DatedBar F))) (r : PaperTrade F)
      → let q = set_judged r (judged_on alert_day df r) in
        set_judged q (judged_on alert_day df q) ≡ q
  unfolding judged_on
  judged_on-again alert_day none r = refl
  judged_on-again alert_day (some []) r = refl
  judged_on-again alert_day (some (d ∷ df)) r = ground arith

  set_judged-ticker :
      (r : PaperTrade F) (j : Option (Judged F)) → (set_judged r j).ticker ≡ r.ticker
  set_judged-ticker r none = refl
  set_judged-ticker r (some j) = refl

  set_judged-if :
      (b : Bool) (q : PaperTrade F) (j : Option (Judged F))
      → set_judged q j ≡ q
      → set_judged q (if b then none else j) ≡ q
  set_judged-if true q j h = refl
  set_judged-if false q j h = h

  evaluate_record-again :
      (alert_day : F → ℕ) (frames : Text → Option (List (DatedBar F))) (r : PaperTrade F)
      → let q = set_judged r (evaluate_record alert_day frames r) in
        set_judged q (evaluate_record alert_day frames q) ≡ q
  unfolding evaluate_record
  evaluate_record-again alert_day frames r = elim (Bool-cases (is_final r.status)) [
    | inl e ↦ rw (e, e) refl
    | inr e ↦
        let j = judged_on alert_day (frames r.ticker) r in
        let q = set_judged r j in
        rw (e, set_judged-ticker r j)
          (set_judged-if (is_final q.status) q (judged_on alert_day (frames r.ticker) q)
            (judged_on-again alert_day (frames r.ticker) r))
  ]

  evaluate_rows-records :
      (alert_day : F → ℕ) (frames : Text → Option (List (DatedBar F)))
      (rs table : List (PaperTrade F))
      → (evaluate_rows alert_day frames rs table).records
        ≡ map (λ r. set_judged r (evaluate_record alert_day frames r)) rs
  unfolding evaluate_rows
  evaluate_rows-records alert_day frames [] table = refl
  evaluate_rows-records alert_day frames (r ∷ rs) table =
      ap (λ t. set_judged r (evaluate_record alert_day frames r) ∷ t)
        (evaluate_rows-records alert_day frames rs _)

  -- what an evaluation keeps of a record r, now q
  pub data IsKept (r q : PaperTrade F) : Type 0 where
    same : q ≡ r → IsKept r q
    judged : is_final r.status ≡ false → (j : Judged F) → q ≡ set_judged r (some j) → IsKept r q

  abbrev pub AllKept : List (PaperTrade F) → List (PaperTrade F) → Type 0
  AllKept [] [] = Unit
  AllKept (r ∷ rs) (q ∷ qs) = IsKept r q × AllKept rs qs
  AllKept _ _ = ⊥

  judged-IsKept :
      (r : PaperTrade F) (j : Option (Judged F))
      → is_final r.status ≡ false
      → IsKept r (set_judged r j)
  judged-IsKept r none h = same refl
  judged-IsKept r (some j) h = judged h j refl

  evaluate_record-IsKept :
      (alert_day : F → ℕ) (frames : Text → Option (List (DatedBar F))) (r : PaperTrade F)
      → IsKept r (set_judged r (evaluate_record alert_day frames r))
  unfolding evaluate_record
  evaluate_record-IsKept alert_day frames r = elim (Bool-cases (is_final r.status)) [
    | inl e ↦ same (rw e refl)
    | inr e ↦ rw e (judged-IsKept r (judged_on alert_day (frames r.ticker) r) e)
  ]

  map-AllKept :
      (alert_day : F → ℕ) (frames : Text → Option (List (DatedBar F))) (rs : List (PaperTrade F))
      → AllKept rs (map (λ r. set_judged r (evaluate_record alert_day frames r)) rs)
  map-AllKept alert_day frames [] = tt
  map-AllKept alert_day frames (r ∷ rs) =
      (evaluate_record-IsKept alert_day frames r, map-AllKept alert_day frames rs)

  -- `evaluate_all` returns the records in their order, each as it was or, if it was not final, with a
  -- status and a result set; evaluating what it returned again with the same frames changes nothing.
  pub evaluate_all-again :
      (alert_day : F → ℕ) (frames : Text → Option (List (DatedBar F))) (rs : List (PaperTrade F))
      → let once = (evaluate_all alert_day frames rs).records in
        ((evaluate_all alert_day frames once).records ≡ once) × AllKept rs once
  unfolding evaluate_all
  evaluate_all-again alert_day frames rs =
      let g : PaperTrade F → PaperTrade F =
        λ r. set_judged r (evaluate_record alert_day frames r) in
      rw
        (
          evaluate_rows-records alert_day frames rs rs,
          evaluate_rows-records alert_day frames (map g rs) (map g rs),
        )
        (map-again g rs (evaluate_record-again alert_day frames), map-AllKept alert_day frames rs)

  -- the later one of two propositions on one ticker and level comes more than a day after the earlier
  abbrev IsApart : PaperTrade F → PaperTrade F → Type 0
  IsApart q r =
      (not (text_eq q.ticker r.ticker && (q.level == r.level)) || (q.ts <? cutoff r.ts)) ≡ true

  abbrev pub IsSpaced : List (PaperTrade F) → Type 0
  IsSpaced [] = Unit
  IsSpaced (q ∷ t) = All (IsApart q) t × IsSpaced t

  module _ (order : IsOrdered F) where
    not_recent-IsApart :
        (rec : PaperTrade F) (q : PaperTrade F)
        → is_duplicate rec.ticker rec.level rec.ts q ≡ false
        → IsApart q rec
    not_recent-IsApart rec q h = ground (arith, order.lt_not_le q.ts (cutoff rec.ts))

    All-snoc :
        (q rec : PaperTrade F) (t : List (PaperTrade F))
        → All (IsApart q) t
        → IsApart q rec
        → All (IsApart q) (t ++ (rec ∷ []))
    All-snoc q rec [] h k = (k, tt)
    All-snoc q rec (r ∷ t) (h, hs) k = (h, All-snoc q rec t hs k)

    append-IsSpaced :
        (rec : PaperTrade F) (table : List (PaperTrade F))
        → any (is_duplicate rec.ticker rec.level rec.ts) table ≡ false
        → IsSpaced table
        → IsSpaced (table ++ (rec ∷ []))
    append-IsSpaced rec [] h k = (tt, tt)
    append-IsSpaced rec (q ∷ t) h (k, ks) = (
      All-snoc q rec t k (not_recent-IsApart rec q (ground arith)),
      append-IsSpaced rec t (ground arith) ks,
    )

    -- An insertion keeps the propositions apart: of two on the same ticker and level, the one stored
    -- later comes more than 24 hours after the other.
    pub insert_paper_trade-IsSpaced :
        (rec : PaperTrade F) (table : List (PaperTrade F))
        → IsSpaced table
        → IsSpaced (insert_paper_trade rec table).0
    unfolding insert_paper_trade recent_paper_duplicate
    insert_paper_trade-IsSpaced rec table h =
        elim (Bool-cases (any (is_duplicate rec.ticker rec.level rec.ts) table)) [
          | inl e ↦ rw e h
          | inr e ↦ rw e (append-IsSpaced rec table e h)
        ]
