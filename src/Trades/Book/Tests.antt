-- ===== src/Trades/Book/Tests.antt =====
-- Opening and closing (stockanalyzer/virtualbook.py, stockanalyzer/data/store.py) at a concrete plan.
use stock_graph_analyzer.Base.{false, some, none, codes}
use stock_graph_analyzer.Base.Int.{ℤ}
use stock_graph_analyzer.Float.Fixed.{fixed_float}
use stock_graph_analyzer.Trades.{manual}
use stock_graph_analyzer.Trades.Sample.{dollars, env, book}
use stock_graph_analyzer.Trades.Mark.Tests.{book-IsKeyed}
use stock_graph_analyzer.Trades.Book.{Plan, open_position, close_trade}
use stock_graph_analyzer.Trades.Book.Laws.{
  IsClosing, IsOpening, close_trade-IsClosing, open_position-IsOpening,
}

abbrev plan : Plan ℤ
plan = record {
  ticker = codes "intc";
  trader = codes "me";
  entry = dollars 100;
  stop = dollars 95;
  target = dollars 110;
  kind = codes "breakout_wait";
  trigger = some (dollars 102);
  horizon_days = 3;
  stake = none;
  snapshot = record {
    score = some 72;
    label = none;
    setup = none;
    kind = none;
    rr = none;
    manual_levels = false;
  };
  managed = false;
  hold_weekend = false;
  entry_rvol = none;
  init_stop = none;
}

close_trade-IsClosing_example :
    IsClosing (codes "b") book (close_trade env (codes "b") (some (dollars 105)) manual none book)
close_trade-IsClosing_example =
    close_trade-IsClosing env (codes "b") (some (dollars 105)) manual none book

open_position-IsOpening_example :
    IsOpening (codes "e") plan book (open_position env (codes "e") none plan book)
open_position-IsOpening_example =
    open_position-IsOpening env (codes "e") none plan book book-IsKeyed
