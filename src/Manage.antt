-- ===== src/Manage.antt =====
-- Exit management (stockanalyzer/manage.py): what to do with one managed open position. The texts of
-- the actions are left out.
pub mod Stops
mod Tests
use stock_graph_analyzer.Base.{
  Bool, true, false, not, ◌&&◌, ◌||◌, Option, none, some, List, [], ◌∷◌, ◌++◌, if◌then◌else◌,
  is_some,
}
use stock_graph_analyzer.Float.{
  Float, ◌⊕◌, ◌⊖◌, ◌⊗◌, ◌⊘◌, ◌≤?◌, ◌<?◌, ◌≥?◌, ◌>?◌, lit, round, or_else, max,
}
use stock_graph_analyzer.Signals.{Direction, bear, TrendChange}
use stock_graph_analyzer.Frames.{
  Bar, Frame, Reports, intraday_frame, session_bars, last_value, last_close, highest_close,
  get_last?,
}

pub data ActionKind : Type 0 where
  move_stop_breakeven trail_stop trend_test_tighten weekend_flat : ActionKind

pub data Severity : Type 0 where
  good warn bad info : Severity

pub record ManageAction (F : Type 0) : Type 0 where
  pub kind : ActionKind
  pub severity : Severity
  pub new_stop : Option F
  pub fraction : Option F
  pub r_multiple : Option F

-- the columns of the position that the assessment reads
pub record Position (F : Type 0) : Type 0 where
  pub entry : F
  pub stop : F
  pub init_stop : Option F

-- what the caller knows of the market
pub record Picture (F : Type 0) : Type 0 where
  pub reports : Reports F
  pub trend_change : Option (TrendChange F)
  pub ema8_5m : Option F
  pub intraday_close : Option F
  pub is_friday_flat : Bool
  pub hold_weekend : Bool

abbrev is_bear : Direction → Bool
is_bear bear = true
is_bear _ = false

module _ {F : Type 0} ⦃f : Float F⦄ where
  abbrev be_trigger_r : F
  be_trigger_r = lit 1 0

  abbrev trail_start_r : F
  trail_start_r = lit 15 1

  abbrev trail_atr_mult : F
  trail_atr_mult = lit 3 0

  abbrev ema8_buffer : F
  ema8_buffer = lit 1 3

  abbrev trend_flip_conf : F
  trend_flip_conf = lit 6 1

  abbrev test_atr_mult : F
  test_atr_mult = lit 6 1

  abbrev pub spread_per_share : F
  spread_per_share = lit 2 2

  abbrev default_atr_frac : F
  default_atr_frac = lit 2 2

  unfoldable pub breakeven_stop : F → F
  breakeven_stop entry = round (entry ⊕ spread_per_share) 4

  abbrev readout_of : Option (Frame F) → Option F × Option F
  readout_of none = (none, none)
  readout_of (some df) = elim df.bars [
    | [] ↦ (none, none)
    | b ∷ bs ↦ (if df.has_ema8 then last_value (λ c. c.ema8) df.bars else none, last_close df.bars)
  ]

  -- (ema8, last close) of the shortest intraday frame
  unfoldable pub intraday_readout : Reports F → Option F × Option F
  unfolding last_value
  intraday_readout reports = readout_of (intraday_frame reports)

  abbrev fraction_of : Option F → Option F → F
  fraction_of (some atr) (some close) = if close ≤? lit 0 0 then default_atr_frac else atr ⊘ close
  fraction_of _ _ = default_atr_frac

  abbrev atr_frac_of : Option (Frame F) → F
  atr_frac_of none = default_atr_frac
  atr_frac_of (some df) =
      if not df.has_atr
      then default_atr_frac
      else fraction_of (last_value (λ b. b.atr) df.bars) (last_close df.bars)

  unfoldable pub atr_frac : Reports F → F
  unfolding last_value
  atr_frac reports = atr_frac_of (intraday_frame reports)

  abbrev below_highest : F → List (Bar F) → Option F → Option F
  below_highest mult (b ∷ bs) (some atr) = some (round (highest_close b bs ⊖ mult ⊗ atr) 4)
  below_highest _ _ _ = none

  abbrev chandelier_of : F → Option (Frame F) → Option F
  chandelier_of mult none = none
  chandelier_of mult (some df) =
      if not df.has_atr
      then none
      else below_highest mult (session_bars df) (last_value (λ b. b.atr) df.bars)

  -- highest session close - mult x ATR; there is an ATR only if there is a bar
  unfoldable pub chandelier_stop : Reports F → F → Option F
  unfolding session_bars last_value
  chandelier_stop reports mult = chandelier_of mult (intraday_frame reports)

  -- `max(cands)` with the optional candidates appended
  abbrev raise_to : F → Option F → F
  raise_to best none = best
  raise_to best (some x) = max best x

  abbrev under_ema8 : Option F → Option F
  under_ema8 none = none
  under_ema8 (some e) = some (round (e ⊗ (lit 1 0 ⊖ ema8_buffer)) 4)

  abbrev is_flip : Option (TrendChange F) → Bool
  is_flip none = false
  is_flip (some tc) = tc.likely && (tc.score ≥? trend_flip_conf) && is_bear tc.direction

  abbrev is_below : Option F → Option F → Bool
  is_below (some ema8) (some close) = close <? ema8
  is_below _ _ = false

  -- `flip or below_ema8`
  unfoldable pub is_testing : Picture F → Bool
  is_testing m = is_flip m.trend_change || is_below m.ema8_5m m.intraday_close

  unfoldable pub test_stop : Position F → Picture F → F → F
  unfolding atr_frac
  test_stop p m price =
      max p.stop (round (price ⊗ (lit 1 0 ⊖ test_atr_mult ⊗ atr_frac m.reports)) 4)

  -- rule 1: a trend flip or a close below EMA8 tightens the stop under the bar
  unfoldable pub test_actions : Position F → Picture F → F → F → List (ManageAction F)
  test_actions p m price r_now =
      if is_testing m && (test_stop p m price >? p.stop)
      then record {
        kind = trend_test_tighten;
        severity = warn;
        new_stop = some (test_stop p m price);
        fraction = none;
        r_multiple = some (round r_now 2);
      }
        ∷ []
      else []

  -- `max(cands)`
  unfoldable pub trail_level : Position F → Picture F → F
  unfolding chandelier_stop
  trail_level p m =
      raise_to (raise_to p.stop (chandelier_stop m.reports trail_atr_mult)) (under_ema8 m.ema8_5m)

  -- rules 2 and 3: trail behind the tighter of EMA8 and the chandelier, or move to breakeven
  unfoldable pub trail_actions : Position F → Picture F → F → List (ManageAction F)
  trail_actions p m r_now =
      if r_now ≥? trail_start_r
      then (if trail_level p m >? p.stop
          then record {
            kind = trail_stop;
            severity = info;
            new_stop = some (trail_level p m);
            fraction = none;
            r_multiple = some (round r_now 2);
          }
            ∷ []
          else [])
      else if (r_now ≥? be_trigger_r) && (p.stop <? breakeven_stop p.entry)
      then record {
        kind = move_stop_breakeven;
        severity = good;
        new_stop = some (breakeven_stop p.entry);
        fraction = none;
        r_multiple = some (round r_now 2);
      }
        ∷ []
      else []

  abbrev pub r_multiple_now : Position F → F → F
  r_multiple_now p price = (price ⊖ p.entry) ⊘ max (lit 1 9) (p.entry ⊖ or_else p.init_stop p.stop)

  abbrev pub flatten : F → ManageAction F
  flatten r_now = record {
    kind = weekend_flat;
    severity = warn;
    new_stop = none;
    fraction = some (lit 1 0);
    r_multiple = some (round r_now 2);
  }

  unfoldable pub assess_position : Position F → F → Picture F → List (ManageAction F)
  assess_position p price m =
      let r_now = r_multiple_now p price in
      if m.is_friday_flat && not m.hold_weekend
      then flatten r_now ∷ []
      else test_actions p m price r_now ++ trail_actions p m r_now
