-- ===== src/Repository/Tests.antt =====
-- The theorems about `TradeRepository` (stockanalyzer/db/repositories/trades.py) at concrete rows.
use stock_graph_analyzer.Base.{◌≡◌, refl, some, none, List, [], ◌∷◌, codes, text_eq, arith}
use stock_graph_analyzer.Base.Int.{ℤ, ◌-ℤ◌}
use stock_graph_analyzer.Float.{◌⊖◌, lit, round}
use stock_graph_analyzer.Float.Fixed.{fixed_float}
use stock_graph_analyzer.Table.{IsKeyed}
use stock_graph_analyzer.Trades.{opened, pending, trade_id, close_row, weekend_flat}
use stock_graph_analyzer.Trades.Sample.{dollars, env, order}
use stock_graph_analyzer.Trades.Mark
use stock_graph_analyzer.Repository.{Owned, finish, mark}
use stock_graph_analyzer.Repository.Parity.{SubZero, own, foreign, mark-parity, finish-close_row}

abbrev rows : List (Owned ℤ)
rows =
    record { user = codes "ann"; trade = order (codes "a") (codes "INTC") opened }
    ∷ record { user = codes "bob"; trade = order (codes "b") (codes "INTC") pending }
    ∷ []

sub_zero : SubZero ℤ
unfolding ◌-ℤ◌
sub_zero x = ground arith

own-IsKeyed : IsKeyed trade_id (own (codes "ann") rows)
unfolding text_eq
own-IsKeyed = (refl, tt)

mark-parity_example :
    let after_mark = (mark env (codes "ann") (codes "INTC") (dollars 94) none rows).0 in
    (own (codes "ann") after_mark
      ≡ (Mark.mark_trades env (codes "INTC") (dollars 94) none (own (codes "ann") rows)).trades)
    × (foreign (codes "ann") after_mark ≡ foreign (codes "ann") rows)
unfolding text_eq
mark-parity_example =
    mark-parity env (codes "ann") (codes "INTC") (dollars 94) none rows sub_zero own-IsKeyed
      (refl, tt)

finish-close_row_example :
    let p = order (codes "a") (codes "INTC") opened in
    finish env (some (dollars 106)) weekend_flat (dollars 999_000) (lit 2 2) p
    ≡ record (close_row env (dollars 106) weekend_flat (dollars 999_000) (lit 2 2) p) {
      exit_price = some (round (dollars 106 ⊖ lit 2 2) 4);
    }
finish-close_row_example =
    finish-close_row env (dollars 106) (dollars 999_000) (lit 2 2) weekend_flat
      (order (codes "a") (codes "INTC") opened)
