-- ===== src/Swing/Volatility.antt =====
-- What stockanalyzer/explain/swing.py reads off the daily bars: the volatility, the vetoes of the
-- indicators, the crash regime; and the relative volume of stockanalyzer/analysis/indicators.py.
use stock_graph_analyzer.Base.{
  ℕ, ◌-◌, Bool, true, false, ◌&&◌, Option, some, none, List, [], ◌∷◌, if◌then◌else◌, ltb, leb,
  length, drop,
}
use stock_graph_analyzer.Float.{
  Float, ◌⊕◌, ◌⊖◌, ◌⊗◌, ◌⊘◌, ◌≥?◌, ◌≤?◌, ◌>?◌, ◌<?◌, lit, min, truthy, or_else,
}
use stock_graph_analyzer.Frames.{Timeframe, m1, m6}
use stock_graph_analyzer.Swing.{
  SwingBar, SwingReport, AllReports, report_at, first_report, last_of, values_of, daily_frames,
  Stats,
}
use stock_graph_analyzer.Swing.Levels.{highest, lowest}

-- `xs.tail(n)`
abbrev pub tail : {A : Type 0} → ℕ → List A → List A
tail n xs = drop (length xs - n) xs

-- the last value and the one before it
abbrev pub last_two : {A : Type 0} → List A → Option (A × A)
last_two [] = none
last_two (x ∷ []) = none
last_two (x ∷ y ∷ []) = some (y, x)
last_two (x ∷ y ∷ z ∷ zs) = last_two (y ∷ z ∷ zs)

-- `_daily_frame`
abbrev pub bars_or : {F : Type 0} → Option (SwingReport F) → List (SwingBar F) → List (SwingBar F)
bars_or none bars = bars
bars_or (some rep) bars = rep.bars

abbrev pub daily_frame : {F : Type 0} → AllReports F → List (SwingBar F) → List (SwingBar F)
daily_frame reports bars = bars_or (first_report reports daily_frames) bars

-- two values that are all there
abbrev pub both : {F : Type 0} → Option F → Option F → Option (F × F)
both (some x) (some y) = some (x, y)
both _ _ = none

pub record CrashInfo (F : Type 0) : Type 0 where
  pub in_regime : Bool
  pub large_aim : Bool
  pub drawdown : F
  pub extreme : Option F

module _ {F : Type 0} ⦃f : Float F⦄ where
  -- `_BB_BLOWOFF_PCT`, `_ADX_TREND`
  abbrev bb_blowoff : F
  bb_blowoff = lit 5 1 ⊘ lit 100 0

  abbrev pub adx_trend : F
  adx_trend = lit 25 0

  unfoldable pub is_overextended : Bool → Option (F × F) → Bool
  is_overextended short none = false
  is_overextended true (some (close, band)) = close <? band ⊗ (lit 1 0 ⊖ bb_blowoff)
  is_overextended false (some (close, band)) = close >? band ⊗ (lit 1 0 ⊕ bb_blowoff)

  unfoldable pub is_adverse : Bool → Option F → Option (F × F) → Bool
  is_adverse true (some adx) (some (plus_di, minus_di)) = adx ≥? adx_trend && (plus_di >? minus_di)
  is_adverse false (some adx) (some (plus_di, minus_di)) = adx ≥? adx_trend && (minus_di >? plus_di)
  is_adverse _ _ _ = false

  -- the close outside the band, and the trend against the entry
  unfoldable pub indicator_guards : AllReports F → List (SwingBar F) → Bool → Bool × Bool
  unfolding is_overextended is_adverse
  indicator_guards reports bars short =
      let daily = daily_frame reports bars in
      (
        is_overextended short (
            both (last_of (λ b. some b.close) daily)
              (last_of (λ b. if short then b.bb_lower else b.bb_upper) daily)),
        is_adverse short (last_of (λ b. b.adx) daily)
            (both (last_of (λ b. b.plus_di) daily) (last_of (λ b. b.minus_di) daily)),
      )

  unfoldable pub hist_against : Bool → Option (F × F) → Bool
  hist_against short none = false
  hist_against true (some (last, prev)) = last >? lit 0 0 && (last >? prev)
  hist_against false (some (last, prev)) = last <? lit 0 0 && (last <? prev)

  abbrev macd_of : Bool → Option (SwingReport F) → Bool
  macd_of short none = false
  macd_of short (some rep) = hist_against short (last_two (values_of (λ b. b.macd_hist) rep.bars))

  unfoldable pub macd_against : AllReports F → Bool → Bool
  unfolding hist_against
  macd_against reports short = macd_of short (first_report reports daily_frames)

  -- `(df["atr"] / df["close"]).dropna()`
  abbrev atr_ratios : List (SwingBar F) → List F
  atr_ratios [] = []
  atr_ratios (b ∷ bs) = elim b.atr [
    | some atr ↦ (atr ⊘ b.close) ∷ atr_ratios bs
    | none ↦ atr_ratios bs
  ]

  unfoldable pub damped : Stats F → List (SwingBar F) → F → F
  damped stats bars live =
      let series = tail 60 (atr_ratios bars) in
      if leb 20 (length series) then min live (stats.median series) else live

  -- what one frame says, or the read of the next one
  unfoldable pub atr_from : Stats F → List (SwingBar F) → Option F → F → F × F → F × F
  unfolding damped
  atr_from stats bars none ref next = next
  atr_from stats bars (some atr) ref next =
      if truthy atr && truthy ref then (atr ⊘ ref, damped stats bars (atr ⊘ ref)) else next

  abbrev atr_at : Stats F → AllReports F → F → List Timeframe → F × F → F × F
  atr_at stats reports price [] chart = chart
  atr_at stats reports price (tf ∷ tfs) chart =
      let next = atr_at stats reports price tfs chart in
      elim (report_at reports tf) [
        | none ↦ next
        | some rep ↦
            atr_from stats rep.bars (last_of (λ b. b.atr) rep.bars) (or_else rep.last_close price)
              next
      ]

  unfoldable pub daily_atr : Stats F → AllReports F → List (SwingBar F) → F → F × F
  unfolding atr_from
  daily_atr stats reports bars price =
      atr_at stats reports price daily_frames
        (atr_from stats bars (last_of (λ b. b.atr) bars) price (lit 2 2, lit 2 2))

  -- `_CRASH_DD`, `_CRASH_RETRACE`
  abbrev crash_dd : F
  crash_dd = lit 15 2

  abbrev crash_retrace : F
  crash_retrace = lit 5 1

  abbrev pub no_crash : CrashInfo F
  no_crash = record { in_regime = false; large_aim = false; drawdown = lit 0 0; extreme = none }

  -- from the extreme of the month
  unfoldable pub crash_from : F → F → F → Bool → Option F → CrashInfo F
  crash_from price entry target bull none = no_crash
  crash_from price entry target true (some ref) =
      let dd = if truthy ref then lit 1 0 ⊖ price ⊘ ref else lit 0 0 in
      record {
        in_regime = dd ≥? crash_dd;
        large_aim = ref >? entry && (target ⊖ entry ≥? crash_retrace ⊗ (ref ⊖ entry));
        drawdown = dd;
        extreme = some ref;
      }
  crash_from price entry target false (some ref) =
      let dd = if truthy ref then price ⊘ ref ⊖ lit 1 0 else lit 0 0 in
      record {
        in_regime = dd ≥? crash_dd;
        large_aim = ref <? entry && (entry ⊖ target ≥? crash_retrace ⊗ (entry ⊖ ref));
        drawdown = dd;
        extreme = some ref;
      }

  abbrev month_extreme : Bool → List (SwingBar F) → Option F
  month_extreme bull bars =
      let month = tail 22 bars in
      if bull
      then highest (values_of (λ b. some b.high) month)
      else lowest (values_of (λ b. some b.low) month)

  abbrev crash_of : F → F → F → Bool → Option (SwingReport F) → CrashInfo F
  crash_of price entry target bull none = no_crash
  crash_of price entry target bull (some rep) =
      crash_from price entry target bull (month_extreme bull rep.bars)

  unfoldable pub crash_regime : AllReports F → F → F → F → Bool → CrashInfo F
  unfolding crash_from
  crash_regime reports price entry target bull =
      crash_of price entry target bull (first_report reports (m1 ∷ m6 ∷ []))

  abbrev volume_ratio : F → Option F → Option F
  volume_ratio avg none = none
  volume_ratio avg (some last) = if avg ≤? lit 0 0 then none else some (last ⊘ avg)

  unfoldable pub relative_volume : Stats F → List (SwingBar F) → Option F
  relative_volume stats bars =
      let vol = values_of (λ b. some b.volume) bars in
      if ltb (length bars) 20
      then none
      else if ltb (length vol) 20
      then none
      else volume_ratio (stats.mean (tail 20 vol)) (last_of (λ b. some b.volume) bars)
