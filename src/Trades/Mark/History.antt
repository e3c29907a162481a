-- ===== src/Trades/Mark/History.antt =====
-- Positions over any sequence of `mark_trades` calls (stockanalyzer/data/store.py).
use mathlib.Core.Path.{subst}
use stock_graph_analyzer.Base.{
  ◌≡◌, ◌≢◌, inl, inr, refl, sym, Bool, Option, List, [], ◌∷◌, map, if◌then◌else◌, Text, upper,
  arith, Bool-cases,
}
use stock_graph_analyzer.Float.{Float}
use stock_graph_analyzer.Table.{IsKeyed, has_id}
use stock_graph_analyzer.Trades.{closed, Trade, Env, trade_id, now_or, set_cancelled, close_row}
use stock_graph_analyzer.Trades.Mark.{mark_trades, is_marked, no_price}
use stock_graph_analyzer.Trades.Mark.Pass.{marked, mark_trades_pass}
use stock_graph_analyzer.Trades.Mark.Lifecycle.{
  Step, break_out, throwback_fill, breakout_failed, never_broke, never_retested, stopped,
  reached_target, ran_out, marked-Step,
}

-- the arguments of one call
pub record Call (F : Type 0) : Type 0 where
  pub ticker : Text
  pub price : F
  pub now : Option F

module _ {F : Type 0} ⦃f : Float F⦄ where
  pub data Reach (env : Env F) (p : Trade F) : Trade F → Type 0 where
    here : Reach env p p
    next : {q r : Trade F} (price now : F) → Reach env p q → Step env price now q r → Reach env p r

  pub mark_calls : Env F → List (Call F) → List (Trade F) → List (Trade F)
  mark_calls env [] table = table
  mark_calls env (c ∷ cs) table =
      mark_calls env cs (mark_trades env c.ticker c.price c.now table).trades

  -- row by row, the second table is reached from the first
  abbrev pub AllReach : Env F → List (Trade F) → List (Trade F) → Type 0
  AllReach env [] [] = Unit
  AllReach env (p ∷ ps) (q ∷ qs) = Reach env p q × AllReach env ps qs
  AllReach env _ _ = ⊥

  -- what no step changes
  pub record SameOrder (p q : Trade F) : Type 0 where
    pub id : q.id ≡ p.id
    pub ticker : q.ticker ≡ p.ticker
    pub trader : q.trader ≡ p.trader
    pub entry : q.entry ≡ p.entry
    pub stop : q.stop ≡ p.stop
    pub target : q.target ≡ p.target
    pub trigger : q.trigger ≡ p.trigger
    pub stake : q.stake ≡ p.stake

  Step-SameOrder :
      (env : Env F) (price now : F) (p q : Trade F) → Step env price now p q → SameOrder p q
  unfolding set_cancelled close_row
  Step-SameOrder env price now p q (break_out s b c e) = ground arith
  Step-SameOrder env price now p q (throwback_fill s b c d e) = ground arith
  Step-SameOrder env price now p q (breakout_failed s b c e) = ground arith
  Step-SameOrder env price now p q (never_broke s b c d e) = ground arith
  Step-SameOrder env price now p q (never_retested s b c d g e) = ground arith
  Step-SameOrder env price now p q (stopped s b e) = ground arith
  Step-SameOrder env price now p q (reached_target s b c e) = ground arith
  Step-SameOrder env price now p q (ran_out s b c d e) = ground arith

  pub Reach-SameOrder : {env : Env F} {p q : Trade F} → Reach env p q → SameOrder p q
  Reach-SameOrder here = ground arith
  Reach-SameOrder {env} {p} (next {q = q} {r = r} price now h s) =
      ground (arith, Reach-SameOrder h, Step-SameOrder env price now q r s)

  pub Step-live :
      (env : Env F) (price now : F) (p q : Trade F) → Step env price now p q → p.status ≢ closed
  Step-live env price now p q (break_out s b c e) = ground arith
  Step-live env price now p q (throwback_fill s b c d e) = ground arith
  Step-live env price now p q (breakout_failed s b c e) = ground arith
  Step-live env price now p q (never_broke s b c d e) = ground arith
  Step-live env price now p q (never_retested s b c d g e) = ground arith
  Step-live env price now p q (stopped s b e) = ground arith
  Step-live env price now p q (reached_target s b c e) = ground arith
  Step-live env price now p q (ran_out s b c d e) = ground arith

  marked-Reach : (env : Env F) (price now : F) (p : Trade F) → Reach env p (marked env price now p)
  marked-Reach env price now p = elim (marked-Step env price now p).0 [
    | inl idle ↦ subst (Reach env p) (sym idle) here
    | inr st ↦ next price now here st
  ]

  Reach-trans : {env : Env F} {p q r : Trade F} → Reach env p q → Reach env q r → Reach env p r
  Reach-trans h here = h
  Reach-trans h (next price now k st) = next price now (Reach-trans h k) st

  AllReach-refl : (env : Env F) (t : List (Trade F)) → AllReach env t t
  AllReach-refl env [] = tt
  AllReach-refl env (p ∷ t) = (here, AllReach-refl env t)

  AllReach-trans :
      (env : Env F) (s t u : List (Trade F))
      → AllReach env s t
      → AllReach env t u
      → AllReach env s u
  AllReach-trans env [] [] [] h k = tt
  AllReach-trans env (p ∷ s) (q ∷ t) (r ∷ u) (h, hs) (k, ks) =
      (Reach-trans h k, AllReach-trans env s t u hs ks)
  AllReach-trans env [] [] (_ ∷ _) h k = absurd k
  AllReach-trans env [] (_ ∷ _) _ h k = absurd h
  AllReach-trans env (_ ∷ _) [] _ h k = absurd h
  AllReach-trans env (_ ∷ _) (_ ∷ _) [] h k = absurd k

  AllReach-map :
      (env : Env F) (sel : Trade F → Bool) (price now : F) (t : List (Trade F))
      → AllReach env t (map (λ p. if sel p then marked env price now p else p) t)
  AllReach-map env sel price now [] = tt
  AllReach-map env sel price now (p ∷ t) = elim (Bool-cases (sel p)) [
    | inl e ↦ rw e (marked-Reach env price now p, AllReach-map env sel price now t)
    | inr e ↦ rw e (here, AllReach-map env sel price now t)
  ]

  AllReach-has_id :
      (env : Env F) (i : Text) (s t : List (Trade F))
      → AllReach env s t
      → has_id trade_id i t ≡ has_id trade_id i s
  AllReach-has_id env i [] [] h = refl
  AllReach-has_id env i (p ∷ s) (q ∷ t) (h, hs) =
      rw ((Reach-SameOrder h).id, AllReach-has_id env i s t hs)
  AllReach-has_id env i [] (_ ∷ _) h = absurd h
  AllReach-has_id env i (_ ∷ _) [] h = absurd h

  AllReach-IsKeyed :
      (env : Env F) (s t : List (Trade F))
      → AllReach env s t
      → IsKeyed trade_id s
      → IsKeyed trade_id t
  AllReach-IsKeyed env [] [] h k = tt
  AllReach-IsKeyed env (p ∷ s) (q ∷ t) (h, hs) (k, ks) = (
    rw ((Reach-SameOrder h).id, AllReach-has_id env p.id s t hs) k,
    AllReach-IsKeyed env s t hs ks,
  )
  AllReach-IsKeyed env [] (_ ∷ _) h k = absurd h
  AllReach-IsKeyed env (_ ∷ _) [] h k = absurd h

  mark_trades-AllReach :
      (env : Env F) (ticker : Text) (price : F) (now : Option F) (table : List (Trade F))
      → IsKeyed trade_id table
      → AllReach env table (mark_trades env ticker price now table).trades
  mark_trades-AllReach env ticker price now table keyed =
      rw (mark_trades_pass env ticker price now table keyed) elim (Bool-cases (no_price price)) [
        | inl e ↦ rw e (AllReach-refl env table)
        | inr e ↦
            rw e (AllReach-map env (is_marked (upper ticker)) price (now_or now env.time) table)
      ]

  -- After any calls of `mark_trades` the table has the same rows in the same order with their ids
  -- still distinct, each one reached from the row before by the steps of the life of a position.
  pub mark_calls_reach :
      (env : Env F) (calls : List (Call F)) (table : List (Trade F))
      → IsKeyed trade_id table
      → AllReach env table (mark_calls env calls table)
        × IsKeyed trade_id (mark_calls env calls table)
  unfolding mark_calls
  mark_calls_reach env [] table keyed = (AllReach-refl env table, keyed)
  mark_calls_reach env (c ∷ cs) table keyed =
      let after = (mark_trades env c.ticker c.price c.now table).trades in
      let one = mark_trades-AllReach env c.ticker c.price c.now table keyed in
      let (rest, last) =
        mark_calls_reach env cs after (AllReach-IsKeyed env table after one keyed) in
      (AllReach-trans env table after (mark_calls env cs after) one rest, last)
