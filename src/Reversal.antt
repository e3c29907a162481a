-- ===== src/Reversal.antt =====
-- The reversal-at-support decision of stockanalyzer/analysis/reversal.py, on the day card of
-- stockanalyzer/analysis/daycard.py.
pub mod Support
pub mod Entry
pub mod Fired
mod Tests
use stock_graph_analyzer.Base.{
  ℕ, ◌+◌, Bool, true, false, not, ◌&&◌, ◌||◌, Option, some, none, List, [], ◌∷◌, ◌++◌,
  if◌then◌else◌, leb, length, filter, map, is_some,
}
use stock_graph_analyzer.Float.{
  Float, ◌⊕◌, ◌⊖◌, ◌⊗◌, ◌⊘◌, ◌≥?◌, ◌≤?◌, ◌>?◌, lit, neg, min, round, truthy,
}
use stock_graph_analyzer.Frames.{get_last?}
use stock_graph_analyzer.Session.{Instant, Phase, opening_range, market_phase}
use stock_graph_analyzer.Signals.{Direction, bull}
use stock_graph_analyzer.Swing.{SwingBar, SwingReport}
use stock_graph_analyzer.Swing.Levels.{highest, absolute}

-- the fields of `DayCard` that the decision reads; of the battle zones the prices
pub record DayCard (F : Type 0) : Type 0 where
  pub session_low : Option F
  pub range_position_pct : Option F
  pub day_change_pct : Option F
  pub supports : List F
  pub battle_zones : List F
  pub next_target : Option F

pub data TrendMode : Type 0 where
  with_trend strong_support : TrendMode

pub data EntryMode : Type 0 where
  touch confirmed : EntryMode

pub record ReversalConfig : Type 0 where
  pub trend_mode : TrendMode
  pub entry_mode : EntryMode

-- `REVERSAL_VARIANTS`
abbrev pub reversal_variants : List ReversalConfig
reversal_variants =
    record { trend_mode = with_trend; entry_mode = touch }
    ∷ record { trend_mode = with_trend; entry_mode = confirmed }
    ∷ record { trend_mode = strong_support; entry_mode = touch }
    ∷ record { trend_mode = strong_support; entry_mode = confirmed }
    ∷ []

pub record ReversalEntry (F : Type 0) : Type 0 where
  pub support : F
  pub entry : F
  pub stop : F
  pub target : F
  pub rr : F

abbrev pub is_opening_range : Phase → Bool
is_opening_range opening_range = true
is_opening_range _ = false

abbrev pub is_bull : Option Direction → Bool
is_bull (some bull) = true
is_bull _ = false

module _ {F : Type 0} ⦃f : Float F⦄ where
  -- `REV_TARGET_PCT`, `REV_MIN_AIM`, `SUPPORT_BAND_PCT`, `RANGE_POS_MAX`, `STOP_BUFFER`, `GAP_DOWN_PCT`,
  -- `CONFIRM_MIN_PCT`
  abbrev rev_target_pct : F
  rev_target_pct = lit 3 2

  abbrev pub rev_min_aim : F
  rev_min_aim = lit 25 3

  abbrev support_band_pct : F
  support_band_pct = lit 4 3

  abbrev range_pos_max : F
  range_pos_max = lit 35 0

  abbrev stop_buffer : F
  stop_buffer = lit 2 3

  abbrev gap_down_pct : F
  gap_down_pct = neg (lit 2 2)

  abbrev confirm_min_pct : F
  confirm_min_pct = lit 1 3

  abbrev pub opt : Option F → List F
  opt none = []
  opt (some x) = x ∷ []

  -- a set of rounded positive prices; its order does not matter here
  unfoldable pub support_candidates : DayCard F → List F
  support_candidates card =
      map (λ c. round c 4)
        (filter (λ c. truthy c && (c >? lit 0 0))
          (card.supports ++ (opt card.session_low ++ card.battle_zones)))

  unfoldable pub nearest_support : DayCard F → F → Option F
  unfolding support_candidates
  nearest_support card price =
      highest (filter (λ c. c ≤? price ⊗ (lit 1 0 ⊕ support_band_pct)) (support_candidates card))

  abbrev pub is_near : F → F → F → Bool
  is_near band support x = absolute (x ⊖ support) ≤? band

  -- of the mapped supports, the battle zones and the session's low
  abbrev pub confidence_at : DayCard F → F → F → ℕ
  confidence_at card support band =
      length (filter (is_near band support) card.supports)
      + length (filter (is_near band support) card.battle_zones)
      + length (filter (is_near band support) (opt card.session_low))

  abbrev pub bar_reverses : F → F → Option (SwingBar F) → Bool
  bar_reverses support band none = false
  bar_reverses support band (some last) =
      last.low ≤? support ⊕ band
      && ((last.close ≥? support ⊗ (lit 1 0 ⊕ confirm_min_pct)) && (last.close ≥? last.opening))

  unfoldable pub reversed_up : Option (SwingReport F) → F → F → Bool
  reversed_up none support band = false
  reversed_up (some rep) support band = bar_reverses support band (get_last? rep.bars)

  -- the session's open that the day's change implies, against the close before
  abbrev gap_between : Option F → Option F → Option F
  gap_between (some session_open) (some prev) =
      if truthy session_open && truthy prev then some (session_open ⊘ prev ⊖ lit 1 0) else none
  gap_between _ _ = none

  abbrev session_open : F → Option F → Option F
  session_open price none = none
  session_open price (some change) = some (price ⊘ (lit 1 0 ⊕ change ⊘ lit 100 0))

  abbrev pub is_gap_down : Option F → Bool
  is_gap_down none = false
  is_gap_down (some gap) = gap ≤? gap_down_pct

  abbrev in_lower_range : Option F → Bool
  in_lower_range none = true
  in_lower_range (some pos) = pos ≤? range_pos_max

  unfoldable pub trend_gate : TrendMode → Option Direction → Option F → ℕ → Bool
  trend_gate with_trend higher gap conf = is_bull higher && not (is_gap_down gap)
  trend_gate strong_support higher gap conf = leb 2 conf

  abbrev entry_gate : EntryMode → Option (SwingReport F) → F → F → Bool
  entry_gate touch rep support band = true
  entry_gate confirmed rep support band = reversed_up rep support band

  -- three percent, capped under the next resistance
  abbrev pub target_at : F → Option F → F
  target_at entry none = entry ⊗ (lit 1 0 ⊕ rev_target_pct)
  target_at entry (some next) =
      let raw = entry ⊗ (lit 1 0 ⊕ rev_target_pct) in
      if truthy next && truthy (next ⊗ lit 995 3) then min raw (next ⊗ lit 995 3) else raw

  abbrev pub stop_under : F → F
  stop_under support = round (support ⊗ (lit 1 0 ⊖ stop_buffer)) 4

  abbrev pub entry_from : F → F → F → F → Option (ReversalEntry F)
  entry_from support entry stop target =
      if stop ≥? entry
      then none
      else if target ⊘ entry ⊖ lit 1 0 ≥? rev_min_aim
      then some record {
        support = support;
        entry = entry;
        stop = stop;
        target = round target 4;
        rr = round ((round target 4 ⊖ entry) ⊘ (entry ⊖ stop)) 2;
      }
      else none

  abbrev at_support :
      DayCard F
      → Option (SwingReport F)
      → F
      → Option Direction
      → Option F
      → ReversalConfig
      → F
      → Option (ReversalEntry F)
  at_support card rep price higher prev_close cfg support =
      let band = support ⊗ support_band_pct in
      let gap = gap_between (session_open price card.day_change_pct) prev_close in
      if is_near band support price && in_lower_range card.range_position_pct
      then if trend_gate cfg.trend_mode higher gap (confidence_at card support band)
        then if entry_gate cfg.entry_mode rep support band
          then entry_from support price (stop_under support) (target_at price card.next_target)
          else none
        else none
      else none

  abbrev from_support :
      DayCard F
      → Option (SwingReport F)
      → F
      → Option Direction
      → Option F
      → ReversalConfig
      → Option F
      → Option (ReversalEntry F)
  from_support card rep price higher prev_close cfg none = none
  from_support card rep price higher prev_close cfg (some support) =
      at_support card rep price higher prev_close cfg support

  -- the entry, where the decision fires
  unfoldable pub reversal_signal :
      DayCard F
      → Option (SwingReport F)
      → F
      → Option Direction
      → Option F
      → Instant
      → ReversalConfig
      → Option (ReversalEntry F)
  unfolding nearest_support reversed_up trend_gate
  reversal_signal card rep price higher prev_close asof cfg =
      if price ≤? lit 0 0
      then none
      else if is_opening_range (market_phase asof)
      then none
      else from_support card rep price higher prev_close cfg (nearest_support card price)
