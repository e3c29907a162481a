-- ===== src/Trades/Mark/Pass.antt =====
-- `mark_trades` (stockanalyzer/data/store.py) as one pass over the table.
use stock_graph_analyzer.Base.{
  ◌≡◌, refl, ap, ◌∙◌, Option, List, [], ◌∷◌, map, if◌then◌else◌, Text, upper, filter, All, arith,
  Bool-cases, inl, inr,
}
use stock_graph_analyzer.Float.{Float}
use stock_graph_analyzer.Table.{run, write_rows, write_rows-filter, update_all, IsKeyed, KeepsId}
use stock_graph_analyzer.Trades.{Trade, Env, trade_id, now_or, set_cancelled, close_row}
use stock_graph_analyzer.Trades.Mark.{
  Mark, keep, silent, report, Marked, mark_pending, mark_opened, mark_row, mark_one, mark_rows,
  mark_trades, is_marked, no_price, unmarked,
}

module _ {F : Type 0} ⦃f : Float F⦄ where
  abbrev pub writes_of : Mark F → List (Trade F → Trade F)
  writes_of keep = []
  writes_of (silent g) = g ∷ []
  writes_of (report g) = g ∷ []

  -- a row after the loop's body
  abbrev pub marked : Env F → F → F → Trade F → Trade F
  marked env price now p = run trade_id (writes_of (mark_row env price now p)) p

  abbrev AllKeepId : Mark F → Type 0
  AllKeepId m = All (KeepsId trade_id) (writes_of m)

  mark_pending-KeepsId :
      (env : Env F) (price now : F) (p : Trade F) → AllKeepId (mark_pending env price now p)
  unfolding mark_pending set_cancelled
  mark_pending-KeepsId env price now p = ground arith

  mark_opened-KeepsId :
      (env : Env F) (price now : F) (p : Trade F) → AllKeepId (mark_opened env price now p)
  unfolding mark_opened close_row
  mark_opened-KeepsId env price now p = ground arith

  mark_row-KeepsId :
      (env : Env F) (price now : F) (p : Trade F) → AllKeepId (mark_row env price now p)
  unfolding mark_row
  mark_row-KeepsId env price now p =
      ground (arith, mark_pending-KeepsId env price now p, mark_opened-KeepsId env price now p)

  mark_one-trades :
      (p : Trade F) (k : Mark F) (m : Marked F)
      → (mark_one p k m).trades ≡ update_all trade_id p.id (writes_of k) m.trades
  unfolding mark_one
  mark_one-trades p keep m = refl
  mark_one-trades p (silent g) m = refl
  mark_one-trades p (report g) m = refl

  mark_rows-trades :
      (env : Env F) (price now : F) (ps : List (Trade F)) (m : Marked F)
      → (mark_rows env price now ps m).trades
        ≡ write_rows trade_id (λ p. writes_of (mark_row env price now p)) ps m.trades
  unfolding mark_rows
  mark_rows-trades env price now [] m = refl
  mark_rows-trades env price now (p ∷ ps) m =
      let k = mark_row env price now p in
      mark_rows-trades env price now ps (mark_one p k m)
      ∙ ap (write_rows trade_id (λ q. writes_of (mark_row env price now q)) ps)
          (mark_one-trades p k m)

  -- On a table without repeated ids, `mark_trades` does to each live row of the ticker what the
  -- body of its loop does to that row alone, and leaves every other row as it is; a price that is
  -- zero or negative leaves them all.
  pub mark_trades_pass :
      (env : Env F) (ticker : Text) (price : F) (now : Option F) (table : List (Trade F))
      → IsKeyed trade_id table
      → (mark_trades env ticker price now table).trades ≡ (
          if no_price price
          then table
          else map
              (λ p.
                if is_marked (upper ticker) p then marked env price (now_or now env.time) p else p)
              table)
  unfolding mark_trades
  mark_trades_pass env ticker price now table keyed = elim (Bool-cases (no_price price)) [
    | inl none_given ↦ rw none_given
    | inr given ↦
        let at = now_or now env.time in
        rw given (
          mark_rows-trades env price at (filter (is_marked (upper ticker)) table) (unmarked table)
          ∙ write_rows-filter trade_id (λ p. writes_of (mark_row env price at p))
              (is_marked (upper ticker)) table (mark_row-KeepsId env price at) keyed)
  ]
