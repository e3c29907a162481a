-- ===== src/Trades/Mark/Tests.antt =====
-- Runs of `mark_trades` (stockanalyzer/data/store.py), and its theorems at concrete inputs.
use stock_graph_analyzer.Base.{
  ◌≡◌, refl, none, some, List, [], ◌∷◌, map, if◌then◌else◌, codes, text_eq, upper, get_elem?,
}
use stock_graph_analyzer.Base.Int.{ℤ, ◌+ℤ◌, ◌-ℤ◌}
use stock_graph_analyzer.Float.Fixed.{fixed_float, round_to}
use stock_graph_analyzer.Table.{IsKeyed, update}
use stock_graph_analyzer.Trades.{
  pending, opened, closed, Trade, trade_id, now_or, set_cancelled, close_row,
}
use stock_graph_analyzer.Trades.Sample.{dollars, env, order, book}
use stock_graph_analyzer.Trades.Mark.{
  mark_trades, is_marked, no_price, set_broke_out, mark_pending, mark_opened,
}
use stock_graph_analyzer.Trades.Mark.Pass.{marked, mark_trades_pass}
use stock_graph_analyzer.Trades.Mark.Changed.{status_changes, mark_trades_changed}
use stock_graph_analyzer.Trades.Mark.Outcome.{HasBecome, mark_calls-Outcome}
use stock_graph_analyzer.Trades.Mark.History.{Call, AllReach, mark_calls, mark_calls_reach}

statuses :
    map (λ (p : Trade ℤ). p.status) (mark_trades env (codes "intc") (dollars 94) none book).trades
    ≡ pending ∷ closed ∷ opened ∷ closed ∷ []
unfolding mark_trades update ◌+ℤ◌ ◌-ℤ◌ round_to close_row set_cancelled mark_pending mark_opened
    text_eq upper
statuses = refl

pub book-IsKeyed : IsKeyed trade_id book
unfolding text_eq
book-IsKeyed = (refl, (refl, (refl, (refl, tt))))

mark_trades_pass_example : (mark_trades env (codes "intc") (dollars 94) none book).trades ≡ (
    if no_price (dollars 94)
    then book
    else map
        (λ p.
          if is_marked (upper (codes "intc")) p
          then marked env (dollars 94) (now_or none env.time) p
          else p)
        book)
mark_trades_pass_example = mark_trades_pass env (codes "intc") (dollars 94) none book book-IsKeyed

mark_trades_changed_example :
    let m = mark_trades env (codes "intc") (dollars 94) none book in
    m.changed ≡ status_changes book m.trades
mark_trades_changed_example =
    mark_trades_changed env (codes "intc") (dollars 94) none book book-IsKeyed

abbrev waiting : Trade ℤ
waiting = order (codes "a") (codes "INTC") pending

abbrev broken : Trade ℤ
broken = set_broke_out (dollars 999_100) waiting

abbrev calls : List (Call ℤ)
calls =
    record { ticker = codes "INTC"; price = dollars 103; now = some (dollars 999_100) }
    ∷ record { ticker = codes "INTC"; price = dollars 99; now = none }
    ∷ []

mark_calls_reach_example :
    AllReach env book (mark_calls env calls book) × IsKeyed trade_id (mark_calls env calls book)
mark_calls_reach_example = mark_calls_reach env calls book book-IsKeyed

mark_calls-Outcome_example : HasBecome waiting (get_elem? (mark_calls env calls book) 0)
mark_calls-Outcome_example = mark_calls-Outcome env calls book 0 waiting book-IsKeyed refl
