-- ===== src/Trades/Manage/Tests.antt =====
-- The theorems about `manage_trades` (stockanalyzer/data/store.py) at concrete inputs.
use stock_graph_analyzer.Base.{
  ◌≡◌, refl, true, false, some, none, [], ◌∷◌, map, if◌then◌else◌, codes, text_eq, upper,
}
use stock_graph_analyzer.Base.Int.{ℤ}
use stock_graph_analyzer.Float.Fixed.{fixed_float}
use stock_graph_analyzer.Table.{IsKeyed}
use stock_graph_analyzer.Trades.{opened, trade_id, now_or, Trade}
use stock_graph_analyzer.Trades.Sample.{dollars, env, order}
use stock_graph_analyzer.Trades.Mark.{no_price}
use stock_graph_analyzer.Trades.Manage.{Managed, is_managed, picture, manage_row, manage_trades}
use stock_graph_analyzer.Trades.Manage.Pass.{stored_row, manage_trades_pass}

abbrev gap_order : Trade ℤ
gap_order = record (order (codes "g") (codes "INTC") opened) { managed = true }

abbrev managed_book : Managed ℤ
managed_book = record {
  trades = gap_order ∷ order (codes "b") (codes "INTC") opened ∷ [];
  events = [];
  changed = [];
}

managed_book-IsKeyed : IsKeyed trade_id managed_book.trades
unfolding text_eq
managed_book-IsKeyed = (refl, (refl, tt))

manage_trades_pass_example :
    (manage_trades env (codes "INTC") (dollars 106) [] none none (some false) managed_book).trades
    ≡ (if no_price (dollars 106)
        then managed_book.trades
        else map
            (λ p.
              if is_managed (upper (codes "INTC")) p
              then stored_row p (
                  manage_row env
                    (dollars 106)
                    (now_or none env.time)
                    (picture env [] none (now_or none env.time) (some false))
                    p)
              else p)
            managed_book.trades)
manage_trades_pass_example =
    manage_trades_pass env (codes "INTC") (dollars 106) [] none none (some false) managed_book
      managed_book-IsKeyed
