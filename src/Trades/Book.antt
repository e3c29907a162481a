-- ===== src/Trades/Book.antt =====
-- Opening, looking up and closing positions: `open_position` of stockanalyzer/virtualbook.py, and
-- `insert_trade`, `has_open_trade`, `has_any_open` and `close_trade` of stockanalyzer/data/store.py. Of
-- the decision context only the snap_ columns are kept; the child tables are left out.
pub mod Laws
mod Tests
use stock_graph_analyzer.Base.{
  ℕ, Bool, true, false, not, ◌&&◌, ◌||◌, Option, none, some, List, [], ◌∷◌, ◌++◌, if◌then◌else◌,
  take, filter, any, Text, codes, text_eq, upper,
}
use stock_graph_analyzer.Float.{Float, ◌⊖◌, ◌⊗◌, ◌⊘◌, ◌>?◌, lit, round, or_else, is_truthy, truthy}
use stock_graph_analyzer.Table.{update, has_id}
use stock_graph_analyzer.Trades.{
  Status, pending, opened, closed, Reason, cancelled, Snapshot, Trade, Env, is_live, trade_id,
  now_or, set_cancelled,
}

-- the arguments of `open_position`
pub record Plan (F : Type 0) : Type 0 where
  pub ticker : Text
  pub trader : Text
  pub entry : F
  pub stop : F
  pub target : F
  pub kind : Text
  pub trigger : Option F
  pub horizon_days : ℕ
  pub stake : Option F
  pub snapshot : Snapshot F
  pub managed : Bool
  pub hold_weekend : Bool
  pub entry_rvol : Option F
  pub init_stop : Option F

abbrev bar : Text
bar = codes "|"

-- `x or ""`
abbrev text_or_empty : Option Text → Text
text_or_empty none = []
text_or_empty (some t) = t

abbrev map_option : {A B : Type 0} → (A → B) → Option A → Option B
map_option g none = none
map_option g (some a) = some (g a)

module _ {F : Type 0} ⦃f : Float F⦄ where
  abbrev stake_usd : F
  stake_usd = lit 1000 0

  abbrev pub first_that : (Trade F → Bool) → List (Trade F) → Option (Trade F)
  first_that test [] = none
  first_that test (p ∷ ps) = if test p then some p else first_that test ps

  -- the texts joined by `|`, hashed and cut
  unfoldable pub cohort_id : Env F → Text → Option Text → Text → F → F → F → Text → Text
  cohort_id env ticker setup kind entry stop target opened_at = take 12 (
      env.sha1 (
        upper ticker
        ++ (bar
            ++ (text_or_empty setup
                ++ (bar
                    ++ (kind
                        ++ (bar
                            ++ (env.format2 entry
                                ++ (bar
                                    ++ (env.format2 stop
                                        ++ (bar
                                            ++ (env.format2 target
                                                ++ (bar ++ take 10 opened_at)))))))))))))

  -- `float(stake) if stake and stake > 0 else STAKE_USD`
  abbrev pub stake_of : Option F → F
  stake_of none = stake_usd
  stake_of (some s) = if truthy s && (s >? lit 0 0) then s else stake_usd

  abbrev pub is_breakout : Plan F → Bool
  is_breakout plan = text_eq plan.kind (codes "breakout_wait") && is_truthy plan.trigger

  -- the row that `open_position` builds and `insert_trade` stores
  unfoldable pub new_trade : Env F → Text → Option F → Plan F → Trade F
  unfolding cohort_id
  new_trade env uuid at plan =
      let now = now_or at env.time in
      let armed = is_breakout plan in
      let stake = stake_of plan.stake in
      let opened_at = env.strftime now in
      record {
        id = uuid;
        ticker = upper plan.ticker;
        trader = plan.trader;
        status = if armed then pending else opened;
        kind = plan.kind;
        opened_ts = now;
        opened_at = opened_at;
        activated_ts = if armed then none else some now;
        broke_out_ts = none;
        entry = round plan.entry 4;
        stop = round plan.stop 4;
        target = round plan.target 4;
        trigger = if is_truthy plan.trigger then map_option (λ t. round t 4) plan.trigger else none;
        stake = round stake 2;
        shares = if truthy plan.entry then round (stake ⊘ plan.entry) 4 else lit 0 0;
        horizon_days = plan.horizon_days;
        exit_price = none;
        close_reason = none;
        closed_ts = none;
        closed_at = none;
        pnl_pct = lit 0 0;
        pnl_usd = lit 0 0;
        snapshot = plan.snapshot;
        cohort_id = some (
            cohort_id env (upper plan.ticker) plan.snapshot.setup plan.kind (round plan.entry 4)
              (round plan.stop 4) (round plan.target 4) opened_at);
        init_stop = some (
            round
              (or_else (some (round (elim plan.init_stop [ none ↦ plan.stop | some s ↦ s ]) 4))
                (round plan.stop 4))
              4);
        mfe_pct = lit 0 0;
        mae_pct = lit 0 0;
        stop_moves = 0;
        managed = plan.managed;
        entry_rvol = map_option (λ v. round v 3) plan.entry_rvol;
        hold_weekend = plan.hold_weekend;
      }

  -- the id is a primary key: inserting it twice raises, and stores nothing
  unfoldable pub insert_trade : Trade F → List (Trade F) → Option (List (Trade F))
  insert_trade p table = if has_id trade_id p.id table then none else some (table ++ (p ∷ []))

  unfoldable pub open_position :
      Env F → Text → Option F → Plan F → List (Trade F) → Option (List (Trade F))
  unfolding new_trade insert_trade
  open_position env uuid now plan table = insert_trade (new_trade env uuid now plan) table

  unfoldable pub has_open_trade : Text → Text → List (Trade F) → Bool
  has_open_trade ticker trader =
      any (λ p. text_eq p.ticker (upper ticker) && (text_eq p.trader trader && is_live p.status))

  unfoldable pub has_any_open : Text → List (Trade F) → Bool
  has_any_open ticker = any (λ p. text_eq p.ticker (upper ticker) && is_live p.status)

  -- the UPDATE of `close_trade`, its profit reckoned from the stored row
  unfoldable pub set_closed : Env F → F → Reason → F → Trade F → Trade F → Trade F
  set_closed env exit_price reason now trade p = record p {
    status = closed;
    exit_price = some (round exit_price 4);
    close_reason = some reason;
    closed_ts = some now;
    closed_at = some (env.strftime now);
    pnl_pct = round ((exit_price ⊘ trade.entry ⊖ lit 1 0) ⊗ lit 100 0) 2;
    pnl_usd = round ((exit_price ⊖ trade.entry) ⊗ trade.shares) 2;
  }

  abbrev pub is_closable : Text → Trade F → Bool
  is_closable pid p = text_eq p.id pid && is_live p.status

  -- the write of `close_trade` to the row it has found, by its status, or `none`
  unfoldable pub closing :
      Env F → Reason → F → Trade F → Status → Option F → Option (Trade F → Trade F)
  closing env reason now p pending exit_price = some (set_cancelled env cancelled now)
  closing env reason now p _ none = none
  closing env reason now p _ (some x) = some (set_closed env x reason now p)

  unfoldable pub write_close :
      Text
      → List (Trade F)
      → Trade F
      → Option (Trade F → Trade F)
      → List (Trade F) × Option (Trade F)
  write_close pid table p none = (table, none)
  write_close pid table p (some g) = (update trade_id pid g table, some (g p))

  unfoldable pub close_found :
      Env F
      → Text
      → Option F
      → Reason
      → F
      → List (Trade F)
      → Option (Trade F)
      → List (Trade F) × Option (Trade F)
  unfolding closing write_close
  close_found env pid exit_price reason now table none = (table, none)
  close_found env pid exit_price reason now table (some p) =
      write_close pid table p (closing env reason now p p.status exit_price)

  -- the table and the closed row, or `none`
  unfoldable pub close_trade :
      Env F
      → Text
      → Option F
      → Reason
      → Option F
      → List (Trade F)
      → List (Trade F) × Option (Trade F)
  unfolding close_found
  close_trade env pid exit_price reason now table =
      close_found env pid exit_price reason (now_or now env.time) table
        (first_that (is_closable pid) table)
