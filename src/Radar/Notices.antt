-- ===== src/Radar/Notices.antt =====
-- When the radar gives a notice: stockanalyzer/swingwatch.py.
use mathlib.Core.Path.{subst}
use stock_graph_analyzer.Base.{
  sym, ℕ, ◌==◌, ◌≡◌, refl, ap, ◌∙◌, Bool, true, false, ◌&&◌, some, List, [], ◌∷◌, ◌++◌, any, All,
  Text, text_eq, text_eq_iff, arith, Bool-cases, inl, inr, Option-cases, ==_iff,
}
use stock_graph_analyzer.Radar.Levels.{IsNotice, new_notice-IsNotice}
use stock_graph_analyzer.Float.{IsOrdered, lit, Float}
use stock_graph_analyzer.Radar.Watch.{
  WatchItem, normalize, is_item, stored_level, write_level, delete_first, add_watch, remove_watch,
  set_notice_level, claim_notice_level, claim_notice, notice_level, new_notice, is_empty,
}

-- what changes the table
pub data WatchCall (F : Type 0) : Type 0 where
  added : Text → Text → WatchCall F
  removed : Text → Text → WatchCall F
  level_set : Text → Text → ℕ → WatchCall F
  claimed : Text → Text → F → WatchCall F

-- the user and the ticker that a call is about
abbrev pub user_of : {F : Type 0} → WatchCall F → Text
user_of (added user ticker) = user
user_of (removed user ticker) = user
user_of (level_set user ticker level) = user
user_of (claimed user ticker score) = user

abbrev pub ticker_of : {F : Type 0} → WatchCall F → Text
ticker_of (added user ticker) = ticker
ticker_of (removed user ticker) = ticker
ticker_of (level_set user ticker level) = ticker
ticker_of (claimed user ticker score) = ticker

-- whether a call is about an assignment
abbrev pub is_about : {F : Type 0} → Text → Text → WatchCall F → Bool
is_about user ticker call =
    text_eq (user_of call) user && text_eq (normalize (ticker_of call)) (normalize ticker)

-- two assignments differ
abbrev Differs : Text → Text → Text → Text → Type 0
Differs user ticker user2 ticker2 = (text_eq user2 user && text_eq ticker2 ticker) ≡ false

is_item-other :
    (user ticker user2 ticker2 : Text) (w : WatchItem)
    → Differs user ticker user2 ticker2
    → is_item user2 ticker2 w ≡ true
    → is_item user ticker w ≡ false
is_item-other user ticker user2 ticker2 w d h =
    let e : w.user ≡ user2 = (text_eq_iff w.user user2).0 (ground arith) in
    let t : w.ticker ≡ ticker2 = (text_eq_iff w.ticker ticker2).0 (ground arith) in rw (e, t) d

module _ (user ticker : Text) where
  stored_level-append :
      (w : WatchItem) (items : List WatchItem)
      → is_item user ticker w ≡ false
      → stored_level user ticker (items ++ (w ∷ [])) ≡ stored_level user ticker items
  unfolding stored_level
  stored_level-append w [] h = rw h refl
  stored_level-append w (v ∷ vs) h = ground (arith, stored_level-append w vs h)

  module _ (user2 ticker2 : Text) (d : Differs user ticker user2 ticker2) where
    stored_level-delete :
        (items : List WatchItem)
        → stored_level user ticker (delete_first user2 ticker2 items)
          ≡ stored_level user ticker items
    unfolding stored_level delete_first
    stored_level-delete [] = refl
    stored_level-delete (w ∷ ws) =
        ground (arith, stored_level-delete ws, is_item-other user ticker user2 ticker2 w d)

    stored_level-write_other :
        (level : ℕ) (items : List WatchItem)
        → stored_level user ticker (write_level user2 ticker2 level items)
          ≡ stored_level user ticker items
    unfolding stored_level write_level
    stored_level-write_other level [] = refl
    stored_level-write_other level (w ∷ ws) =
        ground
          (arith, stored_level-write_other level ws, is_item-other user ticker user2 ticker2 w d)

  stored_level-write :
      (level previous : ℕ) (items : List WatchItem)
      → stored_level user ticker items ≡ some previous
      → stored_level user ticker (write_level user ticker level items) ≡ some level
  unfolding stored_level write_level
  stored_level-write level previous [] h = ground arith
  stored_level-write level previous (w ∷ ws) h =
      ground (arith, stored_level-write level previous ws)

add_watch-other :
    (user ticker user2 ticker2 : Text) (items : List WatchItem)
    → Differs user (normalize ticker) user2 (normalize ticker2)
    → stored_level user (normalize ticker) (add_watch user2 ticker2 items)
      ≡ stored_level user (normalize ticker) items
unfolding add_watch
add_watch-other user ticker user2 ticker2 items d =
    elim (Bool-cases (is_empty (normalize ticker2))) [
      | inl e ↦ rw e refl
      | inr e ↦ elim (Bool-cases (any (is_item user2 (normalize ticker2)) items)) [
        | inl a ↦ rw (e, a) refl
        | inr a ↦ rw (e, a) (stored_level-append user (normalize ticker) _ items d)
      ]
    ]

module _ {F : Type 0} ⦃f : Float F⦄ where
  abbrev pub apply_call : WatchCall F → List WatchItem → List WatchItem
  apply_call (added user ticker) items = add_watch user ticker items
  apply_call (removed user ticker) items = remove_watch user ticker items
  apply_call (level_set user ticker level) items = set_notice_level user ticker level items
  apply_call (claimed user ticker score) items = (claim_notice user ticker score items).0

  abbrev pub apply_calls : List (WatchCall F) → List WatchItem → List WatchItem
  apply_calls [] items = items
  apply_calls (c ∷ cs) items = apply_calls cs (apply_call c items)

  claim_notice-other :
      (user ticker user2 ticker2 : Text) (score : F) (items : List WatchItem)
      → Differs user (normalize ticker) user2 (normalize ticker2)
      → stored_level user (normalize ticker) (claim_notice user2 ticker2 score items).0
        ≡ stored_level user (normalize ticker) items
  unfolding claim_notice claim_notice_level
  claim_notice-other user ticker user2 ticker2 score items d =
      elim (Option-cases (stored_level user2 (normalize ticker2) items)) [
        | inl e ↦ rw e refl
        | inr (previous, e) ↦ elim (Bool-cases (previous == notice_level score)) [
          | inl s ↦ rw (e, s) refl
          | inr s ↦
              rw (e, s)
                (stored_level-write_other user (normalize ticker) user2 (normalize ticker2) d _
                  items)
        ]
      ]

  apply_call-other :
      (user ticker : Text) (c : WatchCall F) (items : List WatchItem)
      → is_about user ticker c ≡ false
      → stored_level user (normalize ticker) (apply_call c items)
        ≡ stored_level user (normalize ticker) items
  unfolding remove_watch set_notice_level
  apply_call-other user ticker (added u t) items d = add_watch-other user ticker u t items d
  apply_call-other user ticker (removed u t) items d =
      stored_level-delete user (normalize ticker) u (normalize t) d items
  apply_call-other user ticker (level_set u t level) items d =
      stored_level-write_other user (normalize ticker) u (normalize t) d level items
  apply_call-other user ticker (claimed u t score) items d =
      claim_notice-other user ticker u t score items d

  apply_calls-other :
      (user ticker : Text) (calls : List (WatchCall F)) (items : List WatchItem)
      → All (λ c. is_about user ticker c ≡ false) calls
      → stored_level user (normalize ticker) (apply_calls calls items)
        ≡ stored_level user (normalize ticker) items
  apply_calls-other user ticker [] items h = refl
  apply_calls-other user ticker (c ∷ cs) items (h, hs) =
      apply_calls-other user ticker cs (apply_call c items) hs
      ∙ apply_call-other user ticker c items h

  claim_notice-stored :
      (user ticker : Text) (score : F) (items : List WatchItem) (previous : ℕ)
      → stored_level user (normalize ticker) items ≡ some previous
      → (stored_level user (normalize ticker) (claim_notice user ticker score items).0
          ≡ some (notice_level score))
        × ((claim_notice user ticker score items).1 ≡ new_notice previous score)
  unfolding claim_notice claim_notice_level
  claim_notice-stored user ticker score items previous h =
      elim (Bool-cases (previous == notice_level score)) [
        | inl e ↦ rw (h, e) (h ∙ ap some ((==_iff previous (notice_level score)).0 e), refl)
        | inr e ↦ rw (h, e) (stored_level-write user (normalize ticker) _ previous items h, refl)
      ]

  claim_again :
      (user ticker : Text) (before score : F) (calls : List (WatchCall F)) (items : List WatchItem)
      (level : ℕ)
      → stored_level user (normalize ticker) items ≡ some level
      → All (λ c. is_about user ticker c ≡ false) calls
      → (claim_notice user ticker score
          (apply_calls calls (claim_notice user ticker before items).0)).1
        ≡ new_notice (notice_level before) score
  claim_again user ticker before score calls items level h hs =
      let first = claim_notice-stored user ticker before items level h in
      let kept = apply_calls-other user ticker calls (claim_notice user ticker before items).0 hs in
      (claim_notice-stored user ticker score
        (apply_calls calls (claim_notice user ticker before items).0) (notice_level before)
        (kept ∙ first.0)).1

  module _ (order : IsOrdered F) (low : f.le (lit 60 0) (lit 70 0) ≡ true)
      (high : f.le (lit 70 0) (lit 80 0) ≡ true) where
    -- Where 60, 70 and 80 are in this order: after a claim on a watched ticker, the next claim gives a
    -- notice exactly when its score reaches one of these levels that the score of the claim before did not
    -- reach, and the notice is of the highest level that the score reaches; whatever was done to other
    -- assignments in between.
    pub claim_notice-IsNotice :
        (user ticker : Text) (before score : F) (calls : List (WatchCall F))
        (items : List WatchItem) (level : ℕ)
        → stored_level user (normalize ticker) items ≡ some level
        → All (λ c. is_about user ticker c ≡ false) calls
        → IsNotice before score
            (claim_notice user ticker score
              (apply_calls calls (claim_notice user ticker before items).0)).1
    claim_notice-IsNotice user ticker before score calls items level h hs =
        subst (IsNotice before score)
          (sym (claim_again user ticker before score calls items level h hs))
          (new_notice-IsNotice order low high before score)
