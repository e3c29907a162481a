-- ===== src/Lib.antt =====
-- Stock graph analyzer: the swing plan, the virtual trade book and what stands around them.
--
-- The program analyses the price frames of a stock, proposes plans and lets bots trade them in a
-- virtual book. A worker goes through the tickers that users watch, gives notices and runs the bots, whose
-- decisions are those of the opening range and of a reversal at a support; a page that is open live tells
-- what changed between two snapshots. Propositions are also kept in a journal and judged against the bars that follow; the
-- backtest judges plans of the past in the same way. Users sign in to accounts that administrators
-- keep, and every request to a provider passes a rate limiter. This development models the plan of a
-- side (levels, volatility, setup, geometry and gates) with the demand score that may veto it, the
-- verdict over the timeframes, the journal, the accounts, the limiter, the radar's cycle, and the book: a plan opens a
-- row (pending for a breakout plan, open otherwise), every tick first manages the managed open rows
-- (the assessment reads the intraday frame, the trend change and the clock, and raises stops or
-- flattens a row) and then marks the rows of the ticker (a pending order breaks out, falls back and
-- fills, or is cancelled; an open one hits its stop or its target, or expires). The same book exists
-- twice: in SQLite (stockanalyzer/data/store.py behind stockanalyzer/virtualbook.py) and in
-- PostgreSQL (stockanalyzer/db/repositories/trades.py).
--
-- Parts and files.
--   Base              shared names, Boolean tests, lists, texts and integers over the native numbers.
--   Float             Python's float as a record of operations; its laws, an order and a rounding to
--                     decimal places, are hypotheses of the theorems that need them. Float.Fixed is
--                     a concrete instance with both laws, in millionths.
--   Table             a table as a list of rows, `UPDATE ... WHERE id=?` as `update`, and a pass of
--                     row-wise writes over a table.
--   Frames            the frames that a report carries, the choice of the intraday frame and the bars of
--                     the last day: analysis/daycard.py, data/market_session.py, data/schema.py in
--                     stockanalyzer.
--   Signals           the direction of analysis/signals.py and the result type of analysis/trend_change.py.
--   Session           stockanalyzer/session.py and the classifier of data/market_session.py. An instant is
--                     an Eastern weekday (Monday is 0) and a time of day in microseconds.
--   Manage            stockanalyzer/manage.py: `assess_position` and what it calls.
--   Trades            the row of the `trades` table, the environment and `_close_row`, of data/store.py.
--   Trades.Mark       `mark_trades`: `mark_pending` and `mark_opened` are the two halves of the loop's
--                     body, `mark_row` is the body, `mark_rows` the loop, `mark_calls` repeated calls.
--                     Trades.Mark.Lifecycle is the step relation of one position.
--   Trades.Manage     `manage_trades` with its event log: `manage_row` is the body of its loop,
--                     `apply_actions` the inner loop with its break.
--   Trades.Book       `open_position` of virtualbook.py with `insert_trade`, `_cohort_id`,
--                     `close_trade` and the two queries of data/store.py.
--   Papertrade        `judge_outcome` of papertrade.py, its loop in two phases; Papertrade.Journal has the
--                     table of propositions, `insert_paper_trade` and `evaluate_all`, and
--                     Papertrade.Report has `summarize`, one tally for each key.
--   Verdict           verdict/aggregate.py: `build_verdict` on the bias scores of the reports, without its
--                     lines of explanation; Strategy and SwingPace of strategy.py.
--   Accounts          auth.py, user_management.py and the two tables they write. Accounts.Auth and
--                     Accounts.Admin are the services, Accounts.Calls sequences of their calls.
--   RateLimit         data/ratelimit.py: the buckets and the daily cap; RateLimit.Threads interleaves the
--                     two critical sections of `acquire`, RateLimit.Daily the SQL statements of
--                     db/repositories/rate_limits.py.
--   Swing             explain/swing.py, without the texts: Swing.Levels is the level map, Swing.Volatility
--                     what is read off the daily bars, Swing.Setup the setups, Swing.Long and
--                     Swing.Short the geometry, Swing.Checks the checklist, Swing.Score its score,
--                     Swing.Plan the gates, Swing.Build the plan; Swing.Emerging is
--                     explain/emerging.py. `math.sqrt` and the median and mean of pandas are the
--                     parameter Swing.Stats.
--   Backtest          judge_close_fill of backtest.py, against the judge of Papertrade.
--   Live              live_events.py: the events between two snapshots, each with what its text is about.
--   Orb               the opening range and the Gap-and-Go decision of analysis/orb.py.
--   Reversal          the reversal-at-support decision of analysis/reversal.py on a day card.
--   Radar             Radar.Watch is swingwatch.py on db/repositories/swingwatch.py, the watched tickers
--                     and the claim of a notice; Radar.Cycle is run_cycle of radar_worker.py, where the
--                     analysis and the processing are parameters that change a world and may raise.
--   Trend             assess_trend_change of analysis/trend_change.py on signals, whose strength is clamped.
--   Repository        the same marking over rows that belong to users: db/repositories/trades.py.
--
-- Conventions. The wall clock, the local date format, sha1, the two-digit format and the conversion
-- to Eastern time are fields of the environment `Env`, since they are Python's and pandas'. The SQL
-- queries are filters of the table in the order of insertion; what the code changes in a row in
-- memory and what it writes to the table are kept apart where both happen, as the write functions of
-- `Work`. NULL and None are `none`; a test that Python makes by truth value (`now or time.time()`,
-- `if not price`) is written with `truthy`, so that zero counts as missing. Every loop is structural
-- recursion over rows, bars or actions, so no fuel is used.
--
-- Not modelled: the reason texts of actions, the tables that hang on a trade (signals, indicators,
-- verdicts, swing checks), concurrent writers of the database, a price that is not a number, and the
-- other parts of the program: the indicators, the texts of a swing plan, the scenarios, how the radar
-- hands the decisions of the bots to the book, the providers, the walk of the backtests and the user interface.
pub mod Base
pub mod Float
pub mod Table
pub mod Signals
pub mod Frames
pub mod Manage
pub mod Session
pub mod Trades
pub mod RateLimit
pub mod Accounts
pub mod Papertrade
pub mod Repository
pub mod Verdict
pub mod Swing
pub mod Backtest
pub mod Trend
pub mod Live
pub mod Orb
pub mod Reversal
pub mod Radar
