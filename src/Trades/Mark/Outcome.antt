-- ===== src/Trades/Mark/Outcome.antt =====
-- What has become of a position after any `mark_trades` calls (stockanalyzer/data/store.py).
use mathlib.Core.Path.{subst}
use stock_graph_analyzer.Base.{
  ◌≡◌, ◌≢◌, ◌⊎◌, inl, inr, refl, ap, ◌∙◌, true, Option, some, none, List, [], ◌∷◌, arith, ℕ,
  get_elem?, zero, suc,
}
use stock_graph_analyzer.Float.{Float, ◌⊘◌, is_truthy, round}
use stock_graph_analyzer.Table.{IsKeyed}
use stock_graph_analyzer.Trades.{
  pending, opened, closed, Trade, Env, trade_id, set_cancelled, close_row, cancelled, Status-cases,
}
use stock_graph_analyzer.Trades.Mark.Lifecycle.{
  Step, break_out, throwback_fill, breakout_failed, never_broke, never_retested, stopped,
  reached_target, ran_out,
}
use stock_graph_analyzer.Trades.Mark.History.{
  Call, Reach, here, next, SameOrder, Reach-SameOrder, Step-live, AllReach, mark_calls,
  mark_calls_reach,
}

module _ {F : Type 0} ⦃f : Float F⦄ where
  -- A closed row is final.
  Reach-closed : {env : Env F} {p q : Trade F} → p.status ≡ closed → Reach env p q → q ≡ p
  Reach-closed c here = refl
  Reach-closed {env} {p} c (next {q = q} {r = r} price now h s) =
      let same = Reach-closed c h in
      absurd (Step-live env price now q r s (ap (λ (t : Trade F). t.status) same ∙ c))

  -- the order had broken out, and its shares are those of a fill at the planned entry
  pub record WasFilled (p q : Trade F) : Type 0 where
    pub broke_out : is_truthy q.broke_out_ts ≡ true
    pub shares : q.shares ≡ round (p.stake ⊘ p.entry) 4

  -- what holds of a pending order p when it has become q
  abbrev Promise : Trade F → Trade F → Type 0
  Promise p q =
      (q.status ≡ opened → WasFilled p q)
      × (q.status ≡ closed → (q.close_reason ≡ some cancelled) ⊎ WasFilled p q)

  Step-Promise :
      (env : Env F) (price now : F) (p q r : Trade F)
      → SameOrder p q
      → Promise p q
      → Step env price now q r
      → Promise p r
  unfolding set_cancelled close_row
  Step-Promise env price now p q r o h (break_out s b c e) = ground arith
  Step-Promise env price now p q r o h (throwback_fill s b c d e) = ground arith
  Step-Promise env price now p q r o h (breakout_failed s b c e) = ground arith
  Step-Promise env price now p q r o h (never_broke s b c d e) = ground arith
  Step-Promise env price now p q r o h (never_retested s b c d g e) = ground arith
  Step-Promise env price now p q r o h (stopped s b e) = ground (arith, h.0 s)
  Step-Promise env price now p q r o h (reached_target s b c e) = ground (arith, h.0 s)
  Step-Promise env price now p q r o h (ran_out s b c d e) = ground (arith, h.0 s)

  Reach-Promise : {env : Env F} {p q : Trade F} → p.status ≡ pending → Reach env p q → Promise p q
  Reach-Promise s here = ground arith
  Reach-Promise {env} {p} s (next {q = q} {r = r} price now h st) =
      Step-Promise env price now p q r (Reach-SameOrder h) (Reach-Promise s h) st

  Step-forward :
      (env : Env F) (price now : F) (p q : Trade F)
      → Step env price now p q
      → p.status ≢ pending
      → q.status ≢ pending
  unfolding set_cancelled close_row
  Step-forward env price now p q (break_out s b c e) h = absurd (h s)
  Step-forward env price now p q (throwback_fill s b c d e) h = absurd (h s)
  Step-forward env price now p q (breakout_failed s b c e) h = absurd (h s)
  Step-forward env price now p q (never_broke s b c d e) h = absurd (h s)
  Step-forward env price now p q (never_retested s b c d g e) h = absurd (h s)
  Step-forward env price now p q (stopped s b e) h = ground arith
  Step-forward env price now p q (reached_target s b c e) h = ground arith
  Step-forward env price now p q (ran_out s b c d e) h = ground arith

  Reach-forward :
      {env : Env F} {p q : Trade F} → p.status ≢ pending → Reach env p q → q.status ≢ pending
  Reach-forward n here = n
  Reach-forward {env} n (next {q = q} {r = r} price now h s) =
      Step-forward env price now q r s (Reach-forward n h)

  -- What a row p can have become.
  pub data Outcome (p q : Trade F) : Type 0 where
    was_closed : p.status ≡ closed → q ≡ p → Outcome p q
    was_opened : p.status ≡ opened → q.status ≢ pending → Outcome p q
    still_pending : p.status ≡ pending → q.status ≡ pending → Outcome p q
    now_cancelled :
        p.status ≡ pending → q.status ≡ closed → q.close_reason ≡ some cancelled → Outcome p q
    was_filled : p.status ≡ pending → q.status ≢ pending → WasFilled p q → Outcome p q

  pending-Outcome :
      {p q : Trade F}
      → p.status ≡ pending
      → (q.status ≡ pending) ⊎ ((q.status ≡ opened) ⊎ (q.status ≡ closed))
      → Promise p q
      → Outcome p q
  pending-Outcome s (inl e) h = still_pending s e
  pending-Outcome s (inr (inl e)) h = was_filled s (λ e'. ground arith) (h.0 e)
  pending-Outcome s (inr (inr e)) h = elim (h.1 e) [
    | inl c ↦ now_cancelled s e c
    | inr filled ↦ was_filled s (λ e'. ground arith) filled
  ]

  Reach-Outcome : {env : Env F} {p q : Trade F} → Reach env p q → Outcome p q
  Reach-Outcome {env} {p} {q} h = elim (Status-cases p.status) [
    | inl s ↦ pending-Outcome s (Status-cases q.status) (Reach-Promise s h)
    | inr (inl s) ↦ was_opened s (Reach-forward (λ e. ground arith) h)
    | inr (inr s) ↦ was_closed s (Reach-closed s h)
  ]

  -- The row that is now in the place of p.
  abbrev pub HasBecome : Trade F → Option (Trade F) → Type 0
  HasBecome p none = ⊥
  HasBecome p (some q) = SameOrder p q × Outcome p q

  abbrev HasBecomeFrom : Option (Trade F) → Option (Trade F) → Type 0
  HasBecomeFrom none _ = Unit
  HasBecomeFrom (some p) o = HasBecome p o

  AllReach-HasBecome :
      (env : Env F) (s t : List (Trade F)) (i : ℕ) (p : Trade F)
      → AllReach env s t
      → get_elem? s i ≡ some p
      → HasBecome p (get_elem? t i)
  AllReach-HasBecome env [] [] i p h e = ground arith
  AllReach-HasBecome env (r ∷ s) (q ∷ t) zero p (h, hs) e =
      subst (λ (o : Option (Trade F)). HasBecomeFrom o (some q)) e
        (Reach-SameOrder h, Reach-Outcome h)
  AllReach-HasBecome env (r ∷ s) (q ∷ t) (suc i) p (h, hs) e = AllReach-HasBecome env s t i p hs e
  AllReach-HasBecome env [] (_ ∷ _) i p h e = absurd h
  AllReach-HasBecome env (_ ∷ _) [] i p h e = absurd h

  -- After any calls of `mark_trades` on a table without repeated ids, each row is still in its place
  -- with the same order (id, ticker, trader, levels, trigger, stake). One that was closed is as it
  -- was, one that was open is not pending, and one that was pending is pending still, or closed as
  -- cancelled, or else its break-out was recorded and its shares are those of a fill at the planned
  -- entry.
  pub mark_calls-Outcome :
      (env : Env F) (calls : List (Call F)) (table : List (Trade F)) (i : ℕ) (p : Trade F)
      → IsKeyed trade_id table
      → get_elem? table i ≡ some p
      → HasBecome p (get_elem? (mark_calls env calls table) i)
  mark_calls-Outcome env calls table i p keyed e =
      AllReach-HasBecome env table (mark_calls env calls table) i p
        (mark_calls_reach env calls table keyed).0 e
