-- ===== src/Trades/Mark.antt =====
-- `mark_trades` (stockanalyzer/data/store.py): activate pending breakout orders in two phases, close
-- open positions at their stop or target, expire stale ones.
pub mod Pass
pub mod Changed
pub mod Lifecycle
pub mod History
pub mod Outcome
pub mod Tests
use stock_graph_analyzer.Base.{
  Bool, true, false, not, ◌||◌, ◌&&◌, Option, some, List, [], ◌∷◌, ◌++◌, if◌then◌else◌, Text,
  text_eq, upper, filter,
}
use stock_graph_analyzer.Float.{
  Float, ◌⊕◌, ◌⊖◌, ◌⊗◌, ◌⊘◌, ◌≤?◌, ◌≥?◌, ◌>?◌, lit, round, or_else, is_truthy, truthy,
}
use stock_graph_analyzer.Table.{update}
use stock_graph_analyzer.Trades.{
  pending, opened, closed, cancelled, stop_hit, target_hit, expired, Trade, Env, is_live, trade_id,
  now_or, set_cancelled, close_row,
}

-- What the loop does with one row: nothing, a write that is not reported, or one that is.
pub data Mark (F : Type 0) : Type 0 where
  keep : Mark F
  silent : (Trade F → Trade F) → Mark F
  report : (Trade F → Trade F) → Mark F

-- the table, the list of changed rows, and the `dirty` flag
pub record Marked (F : Type 0) : Type 0 where
  pub trades : List (Trade F)
  pub changed : List (Trade F)
  pub dirty : Bool
  pub committed : Bool

module _ {F : Type 0} ⦃f : Float F⦄ where
  abbrev pub confirm_margin : F
  confirm_margin = lit 2 3

  abbrev pub expiry_seconds : Trade F → F
  expiry_seconds p = lit p.horizon_days 0 ⊗ lit 15 1 ⊗ lit 86_400 0

  abbrev pub set_broke_out : F → Trade F → Trade F
  set_broke_out now p = record p { broke_out_ts = some now }

  abbrev pub set_activated : F → Trade F → Trade F
  set_activated now p = record p {
    status = opened;
    activated_ts = some now;
    shares = round (p.stake ⊘ p.entry) 4;
  }

  abbrev pub confirm_level : Trade F → F
  confirm_level p = or_else p.trigger p.entry ⊗ (lit 1 0 ⊕ confirm_margin)

  unfoldable pub mark_pending : Env F → F → F → Trade F → Mark F
  mark_pending env price now p =
      let stale = now ⊖ p.opened_ts >? expiry_seconds p in
      let cancel = report (set_cancelled env cancelled now) in
      if not (is_truthy p.broke_out_ts)
      then (if price ≥? confirm_level p
          then silent (set_broke_out now)
          else if stale
          then cancel
          else keep)
      else if price ≤? p.stop
      then cancel
      else if price ≤? p.entry
      then report (set_activated now)
      else if stale
      then cancel
      else keep

  unfoldable pub mark_opened : Env F → F → F → Trade F → Mark F
  mark_opened env price now p =
      let ref_ts = or_else p.activated_ts p.opened_ts in
      if price ≤? p.stop
      then report (close_row env p.stop stop_hit now (lit 0 0))
      else if price ≥? p.target
      then report (close_row env p.target target_hit now (lit 0 0))
      else if now ⊖ ref_ts >? expiry_seconds p
      then report (close_row env price expired now (lit 0 0))
      else keep

  -- the body of the loop; only live rows are selected
  unfoldable pub mark_row : Env F → F → F → Trade F → Mark F
  mark_row env price now p = elim p.status [
    | pending ↦ mark_pending env price now p
    | opened ↦ mark_opened env price now p
    | closed ↦ keep
  ]

  unfoldable pub mark_one : Trade F → Mark F → Marked F → Marked F
  mark_one p keep m = m
  mark_one p (silent g) m = record m { trades = update trade_id p.id g m.trades; dirty = true }
  mark_one p (report g) m = record m {
    trades = update trade_id p.id g m.trades;
    changed = m.changed ++ (g p ∷ []);
  }

  unfoldable pub mark_rows : Env F → F → F → List (Trade F) → Marked F → Marked F
  unfolding mark_row mark_one
  mark_rows env price now [] m = m
  mark_rows env price now (p ∷ ps) m =
      mark_rows env price now ps (mark_one p (mark_row env price now p) m)

  -- `ticker=? AND status IN ('open','pending')`
  abbrev pub is_marked : Text → Trade F → Bool
  is_marked ticker p = text_eq p.ticker ticker && is_live p.status

  -- `not price or price <= 0`
  abbrev pub no_price : F → Bool
  no_price price = not (truthy price) || (price ≤? lit 0 0)

  abbrev pub nonempty : List (Trade F) → Bool
  nonempty [] = false
  nonempty (_ ∷ _) = true

  -- before the loop: `changed = []`, `dirty = False`
  abbrev pub unmarked : List (Trade F) → Marked F
  unmarked table = record { trades = table; changed = []; dirty = false; committed = false }

  unfoldable pub mark_trades : Env F → Text → F → Option F → List (Trade F) → Marked F
  unfolding mark_rows
  mark_trades env ticker price now table =
      let rows = filter (is_marked (upper ticker)) table in
      let m = mark_rows env price (now_or now env.time) rows (unmarked table) in
      if no_price price
      then unmarked table
      else record m { committed = nonempty m.changed || m.dirty }
