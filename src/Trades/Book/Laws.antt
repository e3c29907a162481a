-- ===== src/Trades/Book/Laws.antt =====
-- What opening and closing do to the book (stockanalyzer/virtualbook.py, stockanalyzer/data/store.py).
use stock_graph_analyzer.Base.{
  ◌≡◌, inl, inr, refl, Bool, true, false, not, Option, none, some, List, [], ◌∷◌, ◌++◌, filter, any,
  Text, text_eq, text_eq_refl, text_eq_comm, upper, arith, Bool-cases, Option-cases,
}
use stock_graph_analyzer.Float.{Float, round, IsRounding}
use stock_graph_analyzer.Table.{update, has_id, IsKeyed}
use stock_graph_analyzer.Trades.{
  Status, pending, opened, closed, Reason, Trade, Env, is_live, trade_id, now_or, set_cancelled,
}
use stock_graph_analyzer.Trades.Book.{
  Plan, is_breakout, new_trade, insert_trade, open_position, has_open_trade, has_any_open,
  first_that, is_closable, set_closed, closing, write_close, close_trade,
}

module _ {F : Type 0} ⦃f : Float F⦄ where
  -- a write that closes a row and keeps its id
  abbrev Closes : (Trade F → Trade F) → Type 0
  Closes g = (r : Trade F) → ((g r).status ≡ closed) × ((g r).id ≡ r.id)

  abbrev ClosesOption : Option (Trade F → Trade F) → Type 0
  ClosesOption none = Unit
  ClosesOption (some g) = Closes g

  closing-Closes :
      (env : Env F) (reason : Reason) (now : F) (p : Trade F) (s : Status) (x : Option F)
      → ClosesOption (closing env reason now p s x)
  unfolding closing set_cancelled set_closed
  closing-Closes env reason now p pending x = λ r. (refl, refl)
  closing-Closes env reason now p opened none = tt
  closing-Closes env reason now p opened (some x) = λ r. (refl, refl)
  closing-Closes env reason now p closed none = tt
  closing-Closes env reason now p closed (some x) = λ r. (refl, refl)

  first_that-update :
      (pid : Text) (g : Trade F → Trade F) (t : List (Trade F))
      → Closes g
      → first_that (is_closable pid) (update trade_id pid g t) ≡ none
  unfolding update
  first_that-update pid g [] h = refl
  first_that-update pid g (r ∷ t) h = ground (arith, h r, first_that-update pid g t h)

  abbrev is_other : Text → Trade F → Bool
  is_other pid p = not (text_eq p.id pid)

  filter-update :
      (pid : Text) (g : Trade F → Trade F) (t : List (Trade F))
      → Closes g
      → filter (is_other pid) (update trade_id pid g t) ≡ filter (is_other pid) t
  unfolding update
  filter-update pid g [] h = refl
  filter-update pid g (r ∷ t) h = ground (arith, h r, filter-update pid g t h)

  first_that-closable :
      (pid : Text) (t : List (Trade F)) (p : Trade F)
      → first_that (is_closable pid) t ≡ some p
      → text_eq p.id pid ≡ true
  first_that-closable pid [] p e = ground arith
  first_that-closable pid (r ∷ t) p e = ground (arith, first_that-closable pid t p)

  -- what a call that found p and asked for the write g has done
  abbrev pub IsClosing : Text → List (Trade F) → List (Trade F) × Option (Trade F) → Type 0
  IsClosing pid table (t, none) = t ≡ table
  IsClosing pid table (t, some q) =
      (q.status ≡ closed)
      × (text_eq q.id pid ≡ true)
      × (filter (is_other pid) t ≡ filter (is_other pid) table)
      × (first_that (is_closable pid) t ≡ none)

  write_close-IsClosing :
      (pid : Text) (table : List (Trade F)) (p : Trade F) (g : Option (Trade F → Trade F))
      → ClosesOption g
      → text_eq p.id pid ≡ true
      → IsClosing pid table (write_close pid table p g)
  unfolding write_close
  write_close-IsClosing pid table p none h e = refl
  write_close-IsClosing pid table p (some g) h e =
      ((h p).0, rw (h p).1 e, filter-update pid g table h, first_that-update pid g table h)

  -- `close_trade` that returns nothing leaves the table as it is. If it returns a row, the row is
  -- closed and has the asked id, every row with another id is as before, and no live row with that id
  -- is left, so a position is closed at most once.
  pub close_trade-IsClosing :
      (env : Env F) (pid : Text) (exit_price : Option F) (reason : Reason) (now : Option F)
      (table : List (Trade F))
      → IsClosing pid table (close_trade env pid exit_price reason now table)
  unfolding close_trade
  close_trade-IsClosing env pid exit_price reason now table =
      elim (Option-cases (first_that (is_closable pid) table)) [
        | inl absent ↦ rw absent refl
        | inr (p, found) ↦ rw found (
            write_close-IsClosing pid table p
              (closing env reason (now_or now env.time) p p.status exit_price)
              (closing-Closes env reason (now_or now env.time) p p.status exit_price)
              (first_that-closable pid table p found))
      ]

  -- a row as `open_position` makes it
  pub record IsFresh (plan : Plan F) (p : Trade F) : Type 0 where
    pub pending_iff :
        (p.status ≡ pending → is_breakout plan ≡ true)
        × (is_breakout plan ≡ true → p.status ≡ pending)
    pub live : is_live p.status ≡ true
    pub inactive : p.status ≡ pending → p.activated_ts ≡ none
    pub active : p.status ≡ opened → p.activated_ts ≡ some p.opened_ts
    pub stop_rounded : round p.stop 4 ≡ p.stop
    pub entry_rounded : round p.entry 4 ≡ p.entry
    pub not_broken : p.broke_out_ts ≡ none

  module _ (rounding : IsRounding F) where
    -- A new row is pending exactly for a breakout plan with a trigger, and open otherwise; only an open
    -- one is activated, at its opening time; its entry and stop are rounded to four places, and no
    -- break-out is recorded.
    new_trade-IsFresh :
        (env : Env F) (uuid : Text) (now : Option F) (plan : Plan F)
        → IsFresh plan (new_trade env uuid now plan)
    unfolding new_trade
    new_trade-IsFresh env uuid now plan = elim (Bool-cases (is_breakout plan)) [
      | inl armed ↦ rw armed record {
        pending_iff = (λ _. armed, λ _. refl);
        live = refl;
        inactive = λ _. refl;
        active = λ e. cc;
        stop_rounded = rounding.round_again plan.stop 4;
        entry_rounded = rounding.round_again plan.entry 4;
        not_broken = refl;
      }
      | inr direct ↦ rw direct record {
        pending_iff = (λ e. cc, λ e. cc);
        live = refl;
        inactive = λ e. cc;
        active = λ _. refl;
        stop_rounded = rounding.round_again plan.stop 4;
        entry_rounded = rounding.round_again plan.entry 4;
        not_broken = refl;
      }
    ]

  any-append_last :
      (test : Trade F → Bool) (t : List (Trade F)) (p : Trade F)
      → test p ≡ true
      → any test (t ++ (p ∷ [])) ≡ true
  any-append_last test [] p h = rw h
  any-append_last test (r ∷ t) p h = ground (arith, any-append_last test t p h)

  has_id-snoc :
      (i : Text) (t : List (Trade F)) (p : Trade F)
      → has_id trade_id i t ≡ false
      → text_eq p.id i ≡ false
      → has_id trade_id i (t ++ (p ∷ [])) ≡ false
  has_id-snoc i [] p h e = rw e
  has_id-snoc i (r ∷ t) p h e = ground (arith, has_id-snoc i t p)

  IsKeyed-snoc :
      (t : List (Trade F)) (p : Trade F)
      → IsKeyed trade_id t
      → has_id trade_id p.id t ≡ false
      → IsKeyed trade_id (t ++ (p ∷ []))
  IsKeyed-snoc [] p k h = (refl, tt)
  IsKeyed-snoc (r ∷ t) p (k, ks) h = (
    has_id-snoc r.id t p k (ground (arith, text_eq_comm r.id p.id)),
    IsKeyed-snoc t p ks (ground arith),
  )

  -- what `open_position` returns for a plan on a table
  abbrev pub IsOpening : Text → Plan F → List (Trade F) → Option (List (Trade F)) → Type 0
  IsOpening uuid plan table none = has_id trade_id uuid table ≡ true
  IsOpening uuid plan table (some t) =
      IsKeyed trade_id t
      × (has_open_trade plan.ticker plan.trader t ≡ true)
      × (has_any_open plan.ticker t ≡ true)

  new_trade_open :
      (env : Env F) (uuid : Text) (now : Option F) (plan : Plan F)
      → let p = new_trade env uuid now plan in
        (text_eq p.ticker (upper plan.ticker) ≡ true)
        × (text_eq p.trader plan.trader ≡ true)
        × (is_live p.status ≡ true)
        × (p.id ≡ uuid)
  unfolding new_trade
  new_trade_open env uuid now plan = (
    text_eq_refl (upper plan.ticker),
    text_eq_refl plan.trader,
    elim (Bool-cases (is_breakout plan)) [ inl armed ↦ rw armed | inr direct ↦ rw direct ],
    refl,
  )

  -- On a table without repeated ids, `open_position` fails only for an id that is taken; otherwise the
  -- new table has no repeated ids either, and the trader, and so some trader, holds a live position in
  -- the ticker.
  pub open_position-IsOpening :
      (env : Env F) (uuid : Text) (now : Option F) (plan : Plan F) (table : List (Trade F))
      → IsKeyed trade_id table
      → IsOpening uuid plan table (open_position env uuid now plan table)
  unfolding open_position has_open_trade has_any_open insert_trade
  open_position-IsOpening env uuid now plan table keyed =
      let p = new_trade env uuid now plan in
      let (ticker, trader, live, id) = new_trade_open env uuid now plan in
      elim (Bool-cases (has_id trade_id p.id table)) [
        | inl taken ↦ rw taken (rw id at taken)
        | inr free ↦ rw free (
          IsKeyed-snoc table p keyed free,
          any-append_last _ table p (ground arith),
          any-append_last _ table p (ground arith),
        )
      ]
