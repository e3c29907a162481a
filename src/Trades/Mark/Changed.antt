-- ===== src/Trades/Mark/Changed.antt =====
-- What `mark_trades` (stockanalyzer/data/store.py) returns and commits.
use stock_graph_analyzer.Base.{
  ◌≡◌, refl, sym, ap, ◌∙◌, Bool, true, false, ◌||◌, Option, List, [], ◌∷◌, ◌++◌, map, if◌then◌else◌,
  Text, upper, filter, arith, Bool-cases, inl, inr, filter-cons_true, filter-cons_false,
}
use stock_graph_analyzer.Float.{Float}
use stock_graph_analyzer.Table.{run, IsKeyed}
use stock_graph_analyzer.Trades.{
  Status, pending, opened, closed, Trade, Env, trade_id, now_or, set_cancelled, close_row,
}
use stock_graph_analyzer.Trades.Mark.{
  Mark, keep, silent, report, Marked, mark_pending, mark_opened, mark_row, mark_one, mark_rows,
  mark_trades, is_marked, no_price, nonempty, unmarked,
}
use stock_graph_analyzer.Trades.Mark.Pass.{writes_of, marked, mark_trades_pass}
use mathlib.Core.List.{append-nil, append_assoc}

abbrev pub status_eq : Status → Status → Bool
status_eq pending pending = true
status_eq opened opened = true
status_eq closed closed = true
status_eq _ _ = false

-- the rows of the second table whose status differs from that of the row at the same place of the
-- first
abbrev pub status_changes : {F : Type 0} → List (Trade F) → List (Trade F) → List (Trade F)
status_changes (p ∷ ps) (q ∷ qs) =
    let rest = status_changes ps qs in if status_eq p.status q.status then rest else q ∷ rest
status_changes _ _ = []

status_eq_refl : (s : Status) → status_eq s s ≡ true
status_eq_refl pending = refl
status_eq_refl opened = refl
status_eq_refl closed = refl

status_changes_self : {F : Type 0} (t : List (Trade F)) → status_changes t t ≡ []
status_changes_self [] = refl
status_changes_self (p ∷ t) = rw (status_eq_refl p.status, status_changes_self t)

module _ {F : Type 0} ⦃f : Float F⦄ where
  abbrev reported_of : Trade F → Mark F → List (Trade F)
  reported_of p keep = []
  reported_of p (silent g) = []
  reported_of p (report g) = g p ∷ []

  abbrev reported : Env F → F → F → List (Trade F) → List (Trade F)
  reported env price now [] = []
  reported env price now (p ∷ ps) =
      reported_of p (mark_row env price now p) ++ reported env price now ps

  mark_one-changed :
      (p : Trade F) (k : Mark F) (m : Marked F)
      → (mark_one p k m).changed ≡ m.changed ++ reported_of p k
  unfolding mark_one
  mark_one-changed p keep m = sym (append-nil m.changed)
  mark_one-changed p (silent g) m = sym (append-nil m.changed)
  mark_one-changed p (report g) m = refl

  mark_rows-changed :
      (env : Env F) (price now : F) (ps : List (Trade F)) (m : Marked F)
      → (mark_rows env price now ps m).changed ≡ m.changed ++ reported env price now ps
  unfolding mark_rows
  mark_rows-changed env price now [] m = sym (append-nil m.changed)
  mark_rows-changed env price now (p ∷ ps) m =
      mark_rows-changed env price now ps (mark_one p (mark_row env price now p) m)
      ∙ rw (mark_one-changed p (mark_row env price now p) m) (
          append_assoc m.changed (reported_of p (mark_row env price now p))
            (reported env price now ps))

  -- the status of a row before and after, by what the loop's body asks for
  abbrev Tells : Trade F → Mark F → Type 0
  Tells p keep = Unit
  Tells p (silent g) = status_eq p.status (g p).status ≡ true
  Tells p (report g) = status_eq p.status (g p).status ≡ false

  mark_row-Tells : (env : Env F) (price now : F) (p : Trade F) → Tells p (mark_row env price now p)
  unfolding mark_row mark_pending mark_opened set_cancelled close_row
  mark_row-Tells env price now p = ground arith

  status_changes-cons :
      (p : Trade F) (k : Mark F) (ps qs : List (Trade F))
      → Tells p k
      → status_changes (p ∷ ps) (run trade_id (writes_of k) p ∷ qs)
        ≡ reported_of p k ++ status_changes ps qs
  status_changes-cons p keep ps qs h = rw (status_eq_refl p.status)
  status_changes-cons p (silent g) ps qs h = rw h
  status_changes-cons p (report g) ps qs h = rw h

  reported-filter :
      (env : Env F) (price now : F) (sel : Trade F → Bool) (t : List (Trade F))
      → reported env price now (filter sel t)
        ≡ status_changes t (map (λ p. if sel p then marked env price now p else p) t)
  reported-filter env price now sel [] = refl
  reported-filter env price now sel (p ∷ t) =
      let k = mark_row env price now p in
      let ih = reported-filter env price now sel t in
      elim (Bool-cases (sel p)) [
        | inl chosen ↦
            ap (reported env price now) (filter-cons_true sel p t chosen)
            ∙ ap (◌++◌ (reported_of p k)) ih
            ∙ rw chosen (sym (status_changes-cons p k t _ (mark_row-Tells env price now p)))
        | inr skipped ↦
            ap (reported env price now) (filter-cons_false sel p t skipped)
            ∙ ih
            ∙ rw (skipped, status_eq_refl p.status)
      ]

  mark_trades-changed :
      (env : Env F) (ticker : Text) (price : F) (now : Option F) (table : List (Trade F))
      → (mark_trades env ticker price now table).changed ≡ (
          if no_price price
          then []
          else reported env price (now_or now env.time) (filter (is_marked (upper ticker)) table))
  unfolding mark_trades
  mark_trades-changed env ticker price now table = elim (Bool-cases (no_price price)) [
    | inl none_given ↦ rw none_given
    | inr given ↦ rw given (
        mark_rows-changed env price (now_or now env.time) (filter (is_marked (upper ticker)) table)
          (unmarked table))
  ]

  -- On a table without repeated ids, `mark_trades` returns exactly the rows whose status differs
  -- between the old and the new table, as they are in the new table and in its order.
  pub mark_trades_changed :
      (env : Env F) (ticker : Text) (price : F) (now : Option F) (table : List (Trade F))
      → IsKeyed trade_id table
      → let m = mark_trades env ticker price now table in m.changed ≡ status_changes table m.trades
  mark_trades_changed env ticker price now table keyed =
      rw (mark_trades_pass env ticker price now table keyed, mark_trades-changed)
        elim (Bool-cases (no_price price)) [
          | inl none_given ↦ rw none_given (sym (status_changes_self table))
          | inr given ↦
              rw given
                (reported-filter env price (now_or now env.time) (is_marked (upper ticker)) table)
        ]

  -- nothing was written yet, as long as there is nothing to commit
  abbrev IsClean : List (Trade F) → Marked F → Type 0
  IsClean table m = nonempty m.changed || m.dirty ≡ false → m.trades ≡ table

  nonempty-snoc : (ps : List (Trade F)) (p : Trade F) → nonempty (ps ++ (p ∷ [])) ≡ true
  nonempty-snoc [] p = refl
  nonempty-snoc (q ∷ ps) p = refl

  mark_one-IsClean :
      (table : List (Trade F)) (p : Trade F) (k : Mark F) (m : Marked F)
      → IsClean table m
      → IsClean table (mark_one p k m)
  unfolding mark_one
  mark_one-IsClean table p keep m h = h
  mark_one-IsClean table p (silent g) m h = ground arith
  mark_one-IsClean table p (report g) m h = rw (nonempty-snoc m.changed (g p)) (ground arith)

  mark_rows-IsClean :
      (table : List (Trade F)) (env : Env F) (price now : F) (ps : List (Trade F)) (m : Marked F)
      → IsClean table m
      → IsClean table (mark_rows env price now ps m)
  unfolding mark_rows
  mark_rows-IsClean table env price now [] m h = h
  mark_rows-IsClean table env price now (p ∷ ps) m h =
      let k = mark_row env price now p in
      mark_rows-IsClean table env price now ps (mark_one p k m) (mark_one-IsClean table p k m h)

  -- A call of `mark_trades` that does not commit has written nothing.
  mark_trades_uncommitted :
      (env : Env F) (ticker : Text) (price : F) (now : Option F) (table : List (Trade F))
      → (mark_trades env ticker price now table).committed ≡ false
      → (mark_trades env ticker price now table).trades ≡ table
  unfolding mark_trades
  mark_trades_uncommitted env ticker price now table = elim (Bool-cases (no_price price)) [
    | inl none_given ↦ rw none_given (λ h. refl)
    | inr given ↦ rw given (
        mark_rows-IsClean table env price (now_or now env.time)
          (filter (is_marked (upper ticker)) table) (unmarked table) (λ h. refl))
  ]
