-- ===== src/Trades/Sample.antt =====
-- Sample rows and surroundings for the tests and witnesses about trades.
use stock_graph_analyzer.Base.{ℕ, false, none, some, List, [], ◌∷◌, Text, codes}
use stock_graph_analyzer.Base.Int.{ℤ}
use stock_graph_analyzer.Float.{lit}
use stock_graph_analyzer.Float.Fixed.{fixed_float}
use stock_graph_analyzer.Session.{clock_time}
use stock_graph_analyzer.Trades.{Status, pending, opened, closed, Trade, Env}

abbrev pub dollars : ℕ → ℤ
dollars n = lit n 0

abbrev pub env : Env ℤ
env = record {
  time = dollars 1_000_000;
  strftime = λ t. codes "2026-07-20 10:20";
  sha1 = λ key. key;
  format2 = λ x. codes "1.00";
  eastern = λ t. some (record { weekday = 4; time = clock_time 10 0 });
}

-- an order of 1000 dollars at 100, stop 95, target 110, breakout trigger 102
abbrev pub order : Text → Text → Status → Trade ℤ
order id ticker status = record {
  id = id;
  ticker = ticker;
  trader = codes "bot-BRK";
  status = status;
  kind = codes "breakout_wait";
  opened_ts = dollars 999_000;
  opened_at = codes "2026-07-20 10:00";
  activated_ts = none;
  broke_out_ts = none;
  entry = dollars 100;
  stop = dollars 95;
  target = dollars 110;
  trigger = some (dollars 102);
  stake = dollars 1000;
  shares = dollars 10;
  horizon_days = 3;
  exit_price = none;
  close_reason = none;
  closed_ts = none;
  closed_at = none;
  pnl_pct = dollars 0;
  pnl_usd = dollars 0;
  snapshot = record {
    score = some 72;
    label = none;
    setup = none;
    kind = none;
    rr = none;
    manual_levels = false;
  };
  cohort_id = some (codes "c1");
  init_stop = some (dollars 95);
  mfe_pct = dollars 0;
  mae_pct = dollars 0;
  stop_moves = 0;
  managed = false;
  entry_rvol = none;
  hold_weekend = false;
}

abbrev pub book : List (Trade ℤ)
book =
    order (codes "a") (codes "INTC") pending
    ∷ order (codes "b") (codes "INTC") opened
    ∷ order (codes "c") (codes "MSFT") opened
    ∷ order (codes "d") (codes "INTC") closed
    ∷ []
