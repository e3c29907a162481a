-- ===== src/Trades/Manage.antt =====
-- `manage_trades` (stockanalyzer/data/store.py): the exit management of stockanalyzer/manage.py applied
-- to the managed open rows of a ticker.
pub mod Pass
pub mod Ratchet
mod Tests
use stock_graph_analyzer.Base.{
  ℕ, ◌+◌, ◌≡◌, Bool, true, false, not, ◌&&◌, ◌||◌, Option, none, some, List, [], ◌∷◌, ◌++◌,
  if◌then◌else◌, Text, text_eq, upper, filter,
}
use stock_graph_analyzer.Float.{Float, ◌⊖◌, ◌⊗◌, ◌⊘◌, ◌>?◌, ◌=?◌, lit, round, truthy, max, min}
use stock_graph_analyzer.Session.{is_friday_flat}
use stock_graph_analyzer.Table.{update_all, run}
use stock_graph_analyzer.Signals.{TrendChange}
use stock_graph_analyzer.Frames.{Reports}
use stock_graph_analyzer.Manage.{
  ActionKind, ManageAction, weekend_flat, Position, Picture, assess_position, intraday_readout,
  spread_per_share,
}
use stock_graph_analyzer.Trades.{Status, Reason, Trade, Env, is_opened, trade_id, now_or, close_row}
use stock_graph_analyzer.Trades.Mark.{no_price}

-- a row of `trade_events`; its `detail` text is left out
pub record Event (F : Type 0) : Type 0 where
  pub trade : Text
  pub ts : F
  pub kind : ActionKind
  pub price : F
  pub old_stop : F
  pub new_stop : Option F
  pub fraction : Option F

-- The work on one row: the row as the code holds it, the UPDATEs in their order, the logged events
-- and the rows reported.
pub record Work (F : Type 0) : Type 0 where
  pub row : Trade F
  pub writes : List (Trade F → Trade F)
  pub events : List (Event F)
  pub changed : List (Trade F)

pub record Managed (F : Type 0) : Type 0 where
  pub trades : List (Trade F)
  pub events : List (Event F)
  pub changed : List (Trade F)

abbrev pub is_weekend_flat : ActionKind → Bool
is_weekend_flat weekend_flat = true
is_weekend_flat _ = false

module _ {F : Type 0} ⦃f : Float F⦄ where
  abbrev pub set_excursions : F → F → Trade F → Trade F
  set_excursions mfe mae p = record p { mfe_pct = mfe; mae_pct = mae }

  -- `SET stop=?, stop_moves=COALESCE(stop_moves,0)+1`
  abbrev pub set_stop : F → Trade F → Trade F
  set_stop stop p = record p { stop = stop; stop_moves = p.stop_moves + 1 }

  abbrev pub log_event : Trade F → F → ActionKind → F → F → Option F → Option F → Event F
  log_event p now kind price old_stop new_stop fraction = record {
    trade = p.id;
    ts = now;
    kind = kind;
    price = price;
    old_stop = old_stop;
    new_stop = new_stop;
    fraction = fraction;
  }

  -- `_update_excursions`
  unfoldable pub update_excursions : F → Trade F → List (Trade F → Trade F)
  update_excursions price p =
      let fav = round ((price ⊘ p.entry ⊖ lit 1 0) ⊗ lit 100 0) 2 in
      let mfe = max p.mfe_pct fav in
      let mae = min p.mae_pct fav in
      if not (truthy p.entry)
      then []
      else if not (mfe =? p.mfe_pct) || not (mae =? p.mae_pct)
      then set_excursions mfe mae ∷ []
      else []

  -- closing at market before the weekend, with the spread deducted
  unfoldable pub apply_flat : Env F → F → F → ManageAction F → Work F → Work F
  apply_flat env price now a w =
      let close = close_row env price Reason.weekend_flat now spread_per_share in
      let closed = close w.row in
      record {
        row = closed;
        writes = w.writes ++ (close ∷ []);
        events = w.events ++ (log_event closed now a.kind price closed.stop none a.fraction ∷ []);
        changed = w.changed ++ (closed ∷ []);
      }

  -- the UPDATE counts the move, the row that the code holds does not
  unfoldable pub apply_stop : F → F → ManageAction F → F → Work F → Work F
  apply_stop price now a new_stop w =
      let held : Trade F = record w.row { stop = round new_stop 4 } in
      record {
        row = held;
        writes = w.writes ++ (set_stop (round new_stop 4) ∷ []);
        events =
            w.events
            ++ (log_event w.row now a.kind price w.row.stop (some (round new_stop 4)) none ∷ []);
        changed = w.changed ++ (held ∷ []);
      }

  unfoldable pub apply_new_stop : F → F → ManageAction F → Option F → Work F → Work F
  apply_new_stop price now a none w = w
  apply_new_stop price now a (some s) w = if s >? w.row.stop then apply_stop price now a s w else w

  -- `for a in actions: ...`; a weekend flat ends the loop
  unfoldable pub apply_actions : Env F → F → F → List (ManageAction F) → Work F → Work F
  apply_actions env price now [] w = w
  apply_actions env price now (a ∷ as') w =
      let rest = apply_actions env price now as' (apply_new_stop price now a a.new_stop w) in
      if is_weekend_flat a.kind then apply_flat env price now a w else rest

  -- the row after `_update_excursions`
  abbrev pub start_work : F → Trade F → Work F
  start_work price p = record {
    row = run trade_id (update_excursions price p) p;
    writes = update_excursions price p;
    events = [];
    changed = [];
  }

  abbrev pub position_of : Trade F → Position F
  position_of p = record { entry = p.entry; stop = p.stop; init_stop = p.init_stop }

  -- the picture for a row: its `hold_weekend` column is passed along
  abbrev pub picture_for : Picture F → Trade F → Picture F
  picture_for m p = record m { hold_weekend = p.hold_weekend }

  unfoldable pub manage_row : Env F → F → F → Picture F → Trade F → Work F
  manage_row env price now m p =
      let w = start_work price p in
      apply_actions env price now (assess_position (position_of w.row) price (picture_for m w.row))
        w

  unfoldable pub manage_rows : Env F → F → F → Picture F → List (Trade F) → Managed F → Managed F
  unfolding manage_row
  manage_rows env price now m [] s = s
  manage_rows env price now m (p ∷ ps) s =
      let w = manage_row env price now m p in
      manage_rows env price now m ps (record {
        trades = update_all trade_id p.id w.writes s.trades;
        events = s.events ++ w.events;
        changed = s.changed ++ w.changed;
      })

  -- `ticker=? AND status='open' AND managed=1`
  abbrev pub is_managed : Text → Trade F → Bool
  is_managed ticker p = text_eq p.ticker ticker && (is_opened p.status && p.managed)

  -- `_friday_flat_now`; an exception counts as false
  unfoldable pub friday_flat_now : Env F → F → Bool
  friday_flat_now env now = elim (env.eastern now) [ none ↦ false | some ts ↦ is_friday_flat ts ]

  abbrev friday_flat_or : Env F → Option Bool → F → Bool
  friday_flat_or env none now = friday_flat_now env now
  friday_flat_or env (some b) now = b

  -- what `manage_trades` knows of the market before it looks at a row
  abbrev pub picture : Env F → Reports F → Option (TrendChange F) → F → Option Bool → Picture F
  picture env reports trend_change now friday_flat = record {
    reports = reports;
    trend_change = trend_change;
    ema8_5m = (intraday_readout reports).0;
    intraday_close = (intraday_readout reports).1;
    is_friday_flat = friday_flat_or env friday_flat now;
    hold_weekend = false;
  }

  unfoldable pub manage_trades :
      Env F
      → Text
      → F
      → Reports F
      → Option (TrendChange F)
      → Option F
      → Option Bool
      → Managed F
      → Managed F
  unfolding manage_rows friday_flat_now
  manage_trades env ticker price reports trend_change now friday_flat s =
      let at = now_or now env.time in
      let m = picture env reports trend_change at friday_flat in
      if no_price price
      then record s { changed = [] }
      else manage_rows env price at m (filter (is_managed (upper ticker)) s.trades)
          (record s { changed = [] })
