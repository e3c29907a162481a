-- ===== src/Repository.antt =====
-- `TradeRepository` (stockanalyzer/db/repositories/trades.py), the PostgreSQL twin of the trade book:
-- each row belongs to a user, and a transaction changes the selected rows in place.
pub mod Parity
mod Tests
use stock_graph_analyzer.Base.{
  ◌≡◌, Bool, true, false, not, ◌&&◌, Option, none, some, List, [], ◌∷◌, ◌++◌, if◌then◌else◌,
  is_some, any, Text, text_eq, upper,
}
use stock_graph_analyzer.Float.{Float, ◌⊕◌, ◌⊖◌, ◌⊗◌, ◌⊘◌, ◌≤?◌, ◌≥?◌, ◌>?◌, lit, round, or_else}
use stock_graph_analyzer.Trades.{
  Status, pending, opened, closed, Reason, cancelled, stop_hit, target_hit, expired, Trade, Env,
  is_live, now_or,
}
use stock_graph_analyzer.Trades.Mark.{no_price}

pub record Owned (F : Type 0) : Type 0 where
  pub user : Text
  pub trade : Trade F

module _ {F : Type 0} ⦃f : Float F⦄ where
  abbrev confirm_margin : F
  confirm_margin = lit 2 3

  abbrev finish_status : Env F → Reason → F → Trade F → Trade F
  finish_status env reason now row = record row {
    status = closed;
    close_reason = some reason;
    closed_ts = some now;
    closed_at = some (env.strftime now);
  }

  abbrev finish_price : F → Trade F → Trade F
  finish_price adjusted row = record row {
    exit_price = some (round adjusted 4);
    pnl_pct = round ((adjusted ⊘ row.entry ⊖ lit 1 0) ⊗ lit 100 0) 2;
    pnl_usd = round ((adjusted ⊖ row.entry) ⊗ row.shares) 2;
  }

  -- `_finish`
  unfoldable pub finish : Env F → Option F → Reason → F → F → Trade F → Trade F
  finish env none reason now spread row = finish_status env reason now row
  finish env (some x) reason now spread row =
      finish_price (x ⊖ spread) (finish_status env reason now row)

  abbrev activate : F → Trade F → Trade F
  activate now row = record row {
    status = opened;
    activated_ts = some now;
    shares = round (row.stake ⊘ row.entry) 4;
  }

  abbrev pub is_stale : F → F → Trade F → Bool
  is_stale now since row = now ⊖ since >? lit row.horizon_days 0 ⊗ lit 15 1 ⊗ lit 86_400 0

  -- the row after the loop's body, and whether it is appended to `changed`
  unfoldable pub mark_pending : Env F → F → F → Trade F → Trade F × Bool
  mark_pending env price now row =
      let stale = is_stale now row.opened_ts row in
      let cancel : Trade F × Bool = (finish env none cancelled now (lit 0 0) row, true) in
      let trigger = or_else row.trigger row.entry in
      if not (is_some row.broke_out_ts)
      then (if price ≥? trigger ⊗ (lit 1 0 ⊕ confirm_margin)
          then (record row { broke_out_ts = some now }, false)
          else if stale
          then cancel
          else (row, false))
      else if price ≤? row.stop
      then cancel
      else if price ≤? row.entry
      then (activate now row, true)
      else if stale
      then cancel
      else (row, false)

  unfoldable pub mark_opened : Env F → F → F → Trade F → Trade F × Bool
  mark_opened env price now row =
      let reference = or_else row.activated_ts row.opened_ts in
      if price ≤? row.stop
      then (finish env (some row.stop) stop_hit now (lit 0 0) row, true)
      else if price ≥? row.target
      then (finish env (some row.target) target_hit now (lit 0 0) row, true)
      else if is_stale now reference row
      then (finish env (some price) expired now (lit 0 0) row, true)
      else (row, false)

  unfoldable pub mark_row : Env F → F → F → Trade F → Trade F × Bool
  mark_row env price now row = elim row.status [
    | pending ↦ mark_pending env price now row
    | opened ↦ mark_opened env price now row
    | closed ↦ (row, false)
  ]

  abbrev pub is_selected : Text → Text → Owned F → Bool
  is_selected user ticker o =
      text_eq o.user user && (text_eq o.trade.ticker ticker && is_live o.trade.status)

  abbrev pub reported : Trade F × Bool → List (Trade F)
  reported (row, is_changed) = if is_changed then row ∷ [] else []

  -- the loop over the table; only selected rows are touched
  unfoldable pub mark_table :
      Env F → Text → Text → F → F → List (Owned F) → List (Owned F) × List (Trade F)
  unfolding mark_row
  mark_table env user ticker price now [] = ([], [])
  mark_table env user ticker price now (o ∷ os) =
      let (rest, changed) = mark_table env user ticker price now os in
      let m = mark_row env price now o.trade in
      if is_selected user ticker o
      then (record { user = o.user; trade = m.0 } ∷ rest, reported m ++ changed)
      else (o ∷ rest, changed)

  unfoldable pub mark :
      Env F → Text → Text → F → Option F → List (Owned F) → List (Owned F) × List (Trade F)
  unfolding mark_table
  mark env user ticker price now table =
      if no_price price
      then (table, [])
      else mark_table env user (upper ticker) price (now_or now env.time) table

  unfoldable pub has_open : Text → Text → Text → List (Owned F) → Bool
  has_open user ticker trader = any (λ o.
      text_eq o.user user
      && (text_eq o.trade.ticker (upper ticker)
          && (text_eq o.trade.trader trader && is_live o.trade.status)))

  unfoldable pub has_any_open : Text → Text → List (Owned F) → Bool
  has_any_open user ticker = any (λ o.
      text_eq o.user user && (text_eq o.trade.ticker (upper ticker) && is_live o.trade.status))
