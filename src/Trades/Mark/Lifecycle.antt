-- ===== src/Trades/Mark/Lifecycle.antt =====
-- The life of a position under `mark_trades` (stockanalyzer/data/store.py) as a step relation:
-- pending, broken out, open, closed.
use mathlib.Core.Path.{subst}
use stock_graph_analyzer.Base.{◌≡◌, ◌⊎◌, inl, inr, refl, sym, true, false, arith, Bool-cases}
use stock_graph_analyzer.Float.{Float, ◌⊖◌, ◌≤?◌, ◌≥?◌, ◌>?◌, lit, is_truthy, or_else}
use stock_graph_analyzer.Trades.{
  Status-cases, pending, opened, Trade, Env, set_cancelled, close_row, cancelled, stop_hit,
  target_hit, expired,
}
use stock_graph_analyzer.Trades.Mark.{
  mark_row, mark_pending, mark_opened, confirm_level, expiry_seconds, set_broke_out, set_activated,
}
use stock_graph_analyzer.Trades.Mark.Pass.{marked}

module _ {F : Type 0} ⦃f : Float F⦄ where
  abbrev pub IsStale : F → F → Trade F → Type 0
  IsStale now since p = (now ⊖ since >? expiry_seconds p) ≡ true

  -- What can happen to one row at one price and time.
  pub data Step (env : Env F) (price now : F) (p q : Trade F) : Type 0 where
    break_out :
        p.status ≡ pending
        → is_truthy p.broke_out_ts ≡ false
        → (price ≥? confirm_level p) ≡ true
        → q ≡ set_broke_out now p
        → Step env price now p q
    throwback_fill :
        p.status ≡ pending
        → is_truthy p.broke_out_ts ≡ true
        → (price ≤? p.stop) ≡ false
        → (price ≤? p.entry) ≡ true
        → q ≡ set_activated now p
        → Step env price now p q
    breakout_failed :
        p.status ≡ pending
        → is_truthy p.broke_out_ts ≡ true
        → (price ≤? p.stop) ≡ true
        → q ≡ set_cancelled env cancelled now p
        → Step env price now p q
    never_broke :
        p.status ≡ pending
        → is_truthy p.broke_out_ts ≡ false
        → (price ≥? confirm_level p) ≡ false
        → IsStale now p.opened_ts p
        → q ≡ set_cancelled env cancelled now p
        → Step env price now p q
    never_retested :
        p.status ≡ pending
        → is_truthy p.broke_out_ts ≡ true
        → (price ≤? p.stop) ≡ false
        → (price ≤? p.entry) ≡ false
        → IsStale now p.opened_ts p
        → q ≡ set_cancelled env cancelled now p
        → Step env price now p q
    stopped :
        p.status ≡ opened
        → (price ≤? p.stop) ≡ true
        → q ≡ close_row env p.stop stop_hit now (lit 0 0) p
        → Step env price now p q
    reached_target :
        p.status ≡ opened
        → (price ≤? p.stop) ≡ false
        → (price ≥? p.target) ≡ true
        → q ≡ close_row env p.target target_hit now (lit 0 0) p
        → Step env price now p q
    ran_out :
        p.status ≡ opened
        → (price ≤? p.stop) ≡ false
        → (price ≥? p.target) ≡ false
        → IsStale now (or_else p.activated_ts p.opened_ts) p
        → q ≡ close_row env price expired now (lit 0 0) p
        → Step env price now p q

  Step-marked :
      (env : Env F) (price now : F) (p q : Trade F)
      → Step env price now p q
      → marked env price now p ≡ q
  unfolding mark_row mark_pending mark_opened
  Step-marked env price now p q (break_out s b c e) = ground arith
  Step-marked env price now p q (throwback_fill s b c d e) = ground arith
  Step-marked env price now p q (breakout_failed s b c e) = ground arith
  Step-marked env price now p q (never_broke s b c d e) = ground arith
  Step-marked env price now p q (never_retested s b c d g e) = ground arith
  Step-marked env price now p q (stopped s b e) = ground arith
  Step-marked env price now p q (reached_target s b c e) = ground arith
  Step-marked env price now p q (ran_out s b c d e) = ground arith

  abbrev pub IdleOrStep : Env F → F → F → Trade F → Type 0
  IdleOrStep env price now p =
      (marked env price now p ≡ p) ⊎ Step env price now p (marked env price now p)

  pending-IdleOrStep :
      (env : Env F) (price now : F) (p : Trade F) → p.status ≡ pending → IdleOrStep env price now p
  pending-IdleOrStep env price now p s =
      let by = λ (q : Trade F) (st : Step env price now p q).
        let e = Step-marked env price now p q st in
        subst (λ r. (r ≡ p) ⊎ Step env price now p r) (sym e) (inr st) in
      elim (Bool-cases (is_truthy p.broke_out_ts)) [
        | inl b ↦ elim (Bool-cases (price ≤? p.stop)) [
          | inl c ↦ by _ (breakout_failed s b c refl)
          | inr c ↦ elim (Bool-cases (price ≤? p.entry)) [
            | inl d ↦ by _ (throwback_fill s b c d refl)
            | inr d ↦ elim (Bool-cases (now ⊖ p.opened_ts >? expiry_seconds p)) [
              | inl g ↦ by _ (never_retested s b c d g refl)
              | inr g ↦ inl (unfold mark_row mark_pending in ground arith)
            ]
          ]
        ]
        | inr b ↦ elim (Bool-cases (price ≥? confirm_level p)) [
          | inl c ↦ by _ (break_out s b c refl)
          | inr c ↦ elim (Bool-cases (now ⊖ p.opened_ts >? expiry_seconds p)) [
            | inl g ↦ by _ (never_broke s b c g refl)
            | inr g ↦ inl (unfold mark_row mark_pending in ground arith)
          ]
        ]
      ]

  opened-IdleOrStep :
      (env : Env F) (price now : F) (p : Trade F) → p.status ≡ opened → IdleOrStep env price now p
  opened-IdleOrStep env price now p s =
      let since = or_else p.activated_ts p.opened_ts in
      let by = λ (q : Trade F) (st : Step env price now p q).
        let e = Step-marked env price now p q st in
        subst (λ r. (r ≡ p) ⊎ Step env price now p r) (sym e) (inr st) in
      elim (Bool-cases (price ≤? p.stop)) [
        | inl b ↦ by _ (stopped s b refl)
        | inr b ↦ elim (Bool-cases (price ≥? p.target)) [
          | inl c ↦ by _ (reached_target s b c refl)
          | inr c ↦ elim (Bool-cases (now ⊖ since >? expiry_seconds p)) [
            | inl g ↦ by _ (ran_out s b c g refl)
            | inr g ↦ inl (unfold mark_row mark_opened in ground arith)
          ]
        ]
      ]

  marked-IdleOrStep : (env : Env F) (price now : F) (p : Trade F) → IdleOrStep env price now p
  marked-IdleOrStep env price now p = elim (Status-cases p.status) [
    | inl s ↦ pending-IdleOrStep env price now p s
    | inr (inl s) ↦ opened-IdleOrStep env price now p s
    | inr (inr s) ↦ inl (unfold mark_row in ground arith)
  ]

  -- At each price and time the loop's body leaves a row alone or makes a step, and it makes every
  -- step that is possible.
  pub marked-Step :
      (env : Env F) (price now : F) (p : Trade F)
      → IdleOrStep env price now p
        × ((q : Trade F) → Step env price now p q → marked env price now p ≡ q)
  marked-Step env price now p = (marked-IdleOrStep env price now p, Step-marked env price now p)
