-- ===== src/Orb.antt =====
-- The Gap-and-Go decision of stockanalyzer/analysis/orb.py.
pub mod Fired
mod Tests
use stock_graph_analyzer.Base.{
  ℕ, Bool, true, false, not, ◌&&◌, ◌||◌, Option, some, none, List, [], ◌∷◌, if◌then◌else◌, ltb, leb,
  ◌==◌, filter, is_some,
}
use stock_graph_analyzer.Float.{Float, ◌⊕◌, ◌⊖◌, ◌⊗◌, ◌⊘◌, ◌≥?◌, ◌>?◌, lit, round, truthy}
use stock_graph_analyzer.Frames.{get_last?}
use stock_graph_analyzer.Session.{Instant, Phase, regular, market_phase, is_orb_window}
use stock_graph_analyzer.Swing.{SwingBar, SwingReport, values_of, Stats}
use stock_graph_analyzer.Swing.Levels.{highest, lowest}
use stock_graph_analyzer.Swing.Volatility.{relative_volume}

-- without the day
pub record OpeningRange (F : Type 0) : Type 0 where
  pub opening : F
  pub high : F
  pub low : F
  pub gap_pct : Option F
  pub gap_up : Bool

-- the decision without its reason; `fired` has entry, stop, target and the ratio
pub record GapEntry (F : Type 0) : Type 0 where
  pub entry : F
  pub stop : F
  pub target : F
  pub rr : F

pub record GapGoDecision (F : Type 0) : Type 0 where
  pub gap_up : Bool
  pub in_window : Bool
  pub broke_or_high : Bool
  pub rvol : Option F
  pub vol_ok : Bool
  pub fired : Option (GapEntry F)

abbrev is_regular : Phase → Bool
is_regular regular = true
is_regular _ = false

abbrev same_day : {F : Type 0} → List (SwingBar F) → Option (SwingBar F) → List (SwingBar F)
same_day bars none = bars
same_day bars (some last) = filter (λ b. b.day == last.day) bars

-- `_session_bars` of stockanalyzer/analysis/daycard.py
unfoldable pub session_bars : {F : Type 0} → SwingReport F → List (SwingBar F)
session_bars rep = if not rep.dated then rep.bars else same_day rep.bars (get_last? rep.bars)

-- the bars from 9:30 to 9:45
abbrev pub in_opening_range : {F : Type 0} → SwingBar F → Bool
in_opening_range b = leb 570 b.et_minute && ltb b.et_minute 585

module _ {F : Type 0} ⦃f : Float F⦄ where
  -- `GAP_MIN_PCT`, `MIN_BREAKOUT_RVOL`, `ORB_STOP_BUFFER`, `ORB_TARGET_R`
  abbrev pub gap_min_pct : F
  gap_min_pct = lit 2 2

  abbrev pub min_breakout_rvol : F
  min_breakout_rvol = lit 15 1

  abbrev orb_stop_buffer : F
  orb_stop_buffer = lit 1 3

  abbrev orb_target_r : F
  orb_target_r = lit 2 0

  abbrev gap_of : F → Option F → Option F
  gap_of today none = none
  gap_of today (some prev) =
      if truthy prev && truthy today then some (today ⊘ prev ⊖ lit 1 0) else none

  abbrev is_gap_up : Option F → Bool
  is_gap_up none = false
  is_gap_up (some gap) = gap ≥? gap_min_pct

  abbrev range_from : F → Option F → Option F → Option F → Option (OpeningRange F)
  range_from today gap (some hi) (some lo) =
      some record { opening = today; high = hi; low = lo; gap_pct = gap; gap_up = is_gap_up gap }
  range_from today gap _ _ = none

  abbrev range_of : Option F → List (SwingBar F) → Option (OpeningRange F)
  range_of prev_close [] = none
  range_of prev_close (b ∷ bs) =
      let win = filter in_opening_range (b ∷ bs) in
      range_from b.opening (gap_of b.opening prev_close)
        (highest (values_of (λ w. some w.high) win)) (lowest (values_of (λ w. some w.low) win))

  abbrev range_in : Option F → Instant → Option (SwingReport F) → Option (OpeningRange F)
  range_in prev_close asof none = none
  range_in prev_close asof (some rep) =
      if not rep.dated
      then none
      else if is_regular (market_phase asof)
      then range_of prev_close (session_bars rep)
      else none

  unfoldable pub opening_range :
      Option (SwingReport F) → Option F → Instant → Option (OpeningRange F)
  unfolding session_bars
  opening_range rep prev_close asof = range_in prev_close asof rep

  abbrev above : F → Option F → Bool
  above bound none = true
  above bound (some x) = x >? bound

  abbrev pub stop_of : OpeningRange F → F
  stop_of orange = round (orange.low ⊗ (lit 1 0 ⊖ orb_stop_buffer)) 4

  abbrev pub target_of : F → F → F
  target_of entry stop = round (entry ⊕ orb_target_r ⊗ (entry ⊖ stop)) 4

  -- entry, stop and target, unless the stop is not below the entry
  abbrev pub entry_at : F → F → Option (GapEntry F)
  entry_at entry stop =
      if stop ≥? entry
      then none
      else some record {
        entry = entry;
        stop = stop;
        target = target_of entry stop;
        rr =
            (if entry >? stop
              then round ((target_of entry stop ⊖ entry) ⊘ (entry ⊖ stop)) 2
              else orb_target_r);
      }

  abbrev broke : Option (OpeningRange F) → Option F → Bool
  broke (some orange) (some price) = price ≥? orange.high
  broke _ _ = false

  abbrev is_up : Option (OpeningRange F) → Bool
  is_up none = false
  is_up (some orange) = orange.gap_up

  abbrev fired_at : Bool → Option (OpeningRange F) → Option F → Option (GapEntry F)
  fired_at passed (some orange) (some price) =
      if passed then entry_at price (stop_of orange) else none
  fired_at passed _ _ = none

  abbrev rvol_of : Stats F → Option (SwingReport F) → Option F
  rvol_of stats none = none
  rvol_of stats (some rep) = relative_volume stats rep.bars

  unfoldable pub gap_and_go_signal :
      Stats F
      → Option (OpeningRange F)
      → Option (SwingReport F)
      → Option F
      → Instant
      → GapGoDecision F
  gap_and_go_signal stats orange rep price asof =
      let gap_up = is_up orange in
      let in_window = is_orb_window asof in
      let broke = broke orange price in
      let rvol = rvol_of stats rep in
      let vol_ok = above min_breakout_rvol rvol in
      record {
        gap_up = gap_up;
        in_window = in_window;
        broke_or_high = broke;
        rvol = rvol;
        vol_ok = vol_ok;
        fired = fired_at (gap_up && (in_window && (broke && vol_ok))) orange price;
      }
