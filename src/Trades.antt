-- ===== src/Trades.antt =====
-- The rows of the `trades` and `trade_events` tables (stockanalyzer/data/store.py) and the writes
-- that close a row. Columns that no modelled operation reads are left out, as the schema's
-- `opened` text of an old row.
pub mod Mark
pub mod Manage
pub mod Book
pub mod Sample
use stock_graph_analyzer.Base.{
  ◌≡◌, ◌⊎◌, inl, inr, refl, ℕ, ◌≡◌, Bool, true, false, Option, none, some, List, ◌||◌,
  if◌then◌else◌, Text, text_eq, upper,
}
use stock_graph_analyzer.Session.{Instant}
use stock_graph_analyzer.Float.{Float, ◌⊕◌, ◌⊖◌, ◌⊗◌, ◌⊘◌, ◌=?◌, ◌>?◌, lit, round, truthy}

-- `opened` is the status 'open'.
pub data Status : Type 0 where
  pending opened closed : Status

-- the `close_reason` texts
pub data Reason : Type 0 where
  cancelled stop_hit target_hit expired weekend_flat manual : Reason

-- the snap_ columns that the analytics read
pub record Snapshot (F : Type 0) : Type 0 where
  pub score : Option ℕ
  pub label : Option Text
  pub setup : Option Text
  pub kind : Option Text
  pub rr : Option F
  pub manual_levels : Bool

pub record Trade (F : Type 0) : Type 0 where
  pub id : Text
  pub ticker : Text
  pub trader : Text
  pub status : Status
  pub kind : Text
  pub opened_ts : F
  pub opened_at : Text
  pub activated_ts : Option F
  pub broke_out_ts : Option F
  pub entry : F
  pub stop : F
  pub target : F
  pub trigger : Option F
  pub stake : F
  pub shares : F
  pub horizon_days : ℕ
  pub exit_price : Option F
  pub close_reason : Option Reason
  pub closed_ts : Option F
  pub closed_at : Option Text
  pub pnl_pct : F
  pub pnl_usd : F
  pub snapshot : Snapshot F
  pub cohort_id : Option Text
  pub init_stop : Option F
  pub mfe_pct : F
  pub mae_pct : F
  pub stop_moves : ℕ
  pub managed : Bool
  pub entry_rvol : Option F
  pub hold_weekend : Bool

-- What the code takes from its surroundings: `time.time()`, `time.strftime` in the local zone, and
-- the hash of `_cohort_id`, and pandas' conversion of a timestamp.
pub record Env (F : Type 0) : Type 0 where
  pub time : F
  pub strftime : F → Text
  -- `sha1(key).hexdigest()`
  pub sha1 : Text → Text
  -- `f"{x:.2f}"`
  pub format2 : F → Text
  -- a timestamp in Eastern Time; `none` where the conversion raises
  pub eastern : F → Option Instant

abbrev pub is_opened : Status → Bool
is_opened opened = true
is_opened _ = false

abbrev pub is_pending : Status → Bool
is_pending pending = true
is_pending _ = false

pub Status-cases : (s : Status) → (s ≡ pending) ⊎ ((s ≡ opened) ⊎ (s ≡ closed))
Status-cases pending = inl refl
Status-cases opened = inr (inl refl)
Status-cases closed = inr (inr refl)

-- `status IN ('open','pending')`
abbrev pub is_live : Status → Bool
is_live closed = false
is_live _ = true

abbrev pub trade_id : {F : Type 0} → Trade F → Text
trade_id p = p.id

module _ {F : Type 0} ⦃f : Float F⦄ where
  -- `now or time.time()`
  abbrev pub now_or : Option F → F → F
  now_or none clock = clock
  now_or (some t) clock = if truthy t then t else clock

  -- the UPDATE of `_cancel`, and of the pending branch of `close_trade`
  unfoldable pub set_cancelled : Env F → Reason → F → Trade F → Trade F
  set_cancelled env reason now p = record p {
    status = closed;
    close_reason = some reason;
    closed_ts = some now;
    closed_at = some (env.strftime now);
  }

  -- `_close_row`
  unfoldable pub close_row : Env F → F → Reason → F → F → Trade F → Trade F
  close_row env exit_price reason now spread p =
      let eff_exit = exit_price ⊖ spread in
      record p {
        status = closed;
        exit_price = some (round exit_price 4);
        close_reason = some reason;
        closed_ts = some now;
        closed_at = some (env.strftime now);
        pnl_pct = round ((eff_exit ⊘ p.entry ⊖ lit 1 0) ⊗ lit 100 0) 2;
        pnl_usd = round ((eff_exit ⊖ p.entry) ⊗ p.shares) 2;
      }
