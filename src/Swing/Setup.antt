-- ===== src/Swing/Setup.antt =====
-- The setups of stockanalyzer/explain/swing.py: `_ind_frame`, `_detect_long_setup`,
-- `_detect_short_setup`.
use stock_graph_analyzer.Base.{
  ◌-◌, Bool, true, false, ◌&&◌, ◌||◌, Option, some, none, List, [], ◌∷◌, if◌then◌else◌, ltb, length,
  filter, any, get_elem?, is_some, Text, codes, text_eq,
}
use stock_graph_analyzer.Float.{Float, ◌⊖◌, ◌⊗◌, ◌≥?◌, ◌≤?◌, ◌>?◌, ◌<?◌, lit, max, or_else}
use stock_graph_analyzer.Frames.{Timeframe, m6, ytd, y1}
use stock_graph_analyzer.Signals.{Direction, bull, bear}
use stock_graph_analyzer.Swing.{SwingBar, SwingReport, AllReports, report_at, last_of, values_of}
use stock_graph_analyzer.Swing.Levels.{highest, lowest, absolute}

-- the texts that name a setup
pub data SwingSetup : Type 0 where
  trend_change_early momentum_gap breakout_volume oversold_reversal pullback_to_ema support_test :
      SwingSetup
  trend_change_down momentum_gap_down overbought_reversal rally_into_resistance : SwingSetup

-- `_COUNTERTREND_SETUPS`
unfoldable pub is_countertrend : Option SwingSetup → Bool
is_countertrend (some trend_change_early) = true
is_countertrend (some oversold_reversal) = true
is_countertrend (some trend_change_down) = true
is_countertrend (some overbought_reversal) = true
is_countertrend _ = false

-- `name in names`
abbrev pub has_signal : Text → List Text → Bool
has_signal name names = any (text_eq name) names

-- `_BULL_CONFIRM`, `_BEAR_CONFIRM`
abbrev pub bull_confirm : List Text
bull_confirm =
    codes "hammer"
    ∷ codes "bullish_engulfing"
    ∷ codes "double_bottom"
    ∷ codes "rsi_bullish_divergence"
    ∷ codes "inverse_head_and_shoulders"
    ∷ codes "macd_bull_cross"
    ∷ codes "premarket_gap_up"
    ∷ codes "stoch_bull"
    ∷ []

abbrev pub bear_confirm : List Text
bear_confirm =
    codes "shooting_star"
    ∷ codes "bearish_engulfing"
    ∷ codes "double_top"
    ∷ codes "rsi_bearish_divergence"
    ∷ codes "head_and_shoulders"
    ∷ codes "macd_bear_cross"
    ∷ codes "premarket_gap_down"
    ∷ codes "stoch_bear"
    ∷ []

-- the signals that confirm
abbrev pub confirms : Bool → List Text → List Text
confirms short names =
    filter (λ n. has_signal n (if short then bear_confirm else bull_confirm)) names

abbrev leans_bull : Direction → Bool
leans_bull bull = true
leans_bull _ = false

abbrev leans_bear : Direction → Bool
leans_bear bear = true
leans_bear _ = false

abbrev pub ind_frames : List Timeframe
ind_frames = m6 ∷ ytd ∷ y1 ∷ []

module _ {F : Type 0} ⦃f : Float F⦄ where
  -- `_ind_frame`
  unfoldable pub ind_frame : AllReports F → List Timeframe → List (SwingBar F) → List (SwingBar F)
  ind_frame reports [] bars = bars
  ind_frame reports (tf ∷ tfs) bars =
      let next = ind_frame reports tfs bars in
      elim (report_at reports tf) [
        | none ↦ next
        | some rep ↦ if is_some (last_of (λ b. b.sma50) rep.bars) then rep.bars else next
      ]

  -- whether two values are there and pass a test
  abbrev passes : (F → F → Bool) → Option F → Option F → Bool
  passes test (some x) (some y) = test x y
  passes test _ _ = false

  -- `_rising`, over the last ten bars
  abbrev pub rising : (SwingBar F → Option F) → List (SwingBar F) → Bool
  rising col bars =
      let s = values_of col bars in
      ltb 10 (length s) && passes ◌>?◌ (last_of col bars) (get_elem? s (length s - 10))

  -- the nearest level above the price, and the nearest below
  abbrev pub level_above : F → List F → Option F
  level_above price levels = lowest (filter (λ x. x >? price) levels)

  abbrev pub level_below : F → List F → Option F
  level_below price levels = highest (filter (λ x. x <? price) levels)

  -- `_last(df, "rsi") or _last(ind, "rsi") or 50.0`
  abbrev pub rsi_or_neutral : List (SwingBar F) → List (SwingBar F) → F
  rsi_or_neutral bars ind =
      or_else (last_of (λ b. b.rsi) bars) (or_else (last_of (λ b. b.rsi) ind) (lit 50 0))

  abbrev or_true : (F → Bool) → Option F → Bool
  or_true test none = true
  or_true test (some x) = test x

  abbrev or_false : (F → Bool) → Option F → Bool
  or_false test none = false
  or_false test (some x) = test x

  unfoldable pub detect_long_setup :
      SwingReport F → F → List (SwingBar F) → F → List (SwingBar F) → Option SwingSetup
  detect_long_setup report price bars atr_abs ind =
      let names = report.signals in
      let ema20 = last_of (λ b. b.ema20) ind in
      let rsi = rsi_or_neutral bars ind in
      let s1 = level_below price report.levels in
      let r1 = level_above price report.levels in
      let uptrend = or_false (λ sma50. price ≥? sma50) (last_of (λ b. b.sma50) ind) in
      let above_200 = or_true (λ sma200. price ≥? sma200) (last_of (λ b. b.sma200) ind) in
      let spike = has_signal (codes "volume_spike") names in
      if report.trend_change.likely && (leans_bull report.trend_change.direction && above_200)
      then some trend_change_early
      else if has_signal (codes "premarket_gap_up") names
          || (has_signal (codes "macd_bull_cross") names && spike)
      then some momentum_gap
      else if or_false (λ r. spike && ((price ⊖ r ≤? lit 0 0) && (r ⊖ price ≤? lit 5 1 ⊗ atr_abs)))
          r1
      then some breakout_volume
      else if (rsi ≤? lit 40 0) && (ltb 0 (length (confirms false names)) && above_200)
      then some oversold_reversal
      else if uptrend
          && (or_false (λ e. absolute (price ⊖ e) ≤? max atr_abs (lit 2 2 ⊗ price)) ema20
              && rising (λ b. b.ema20) ind)
      then some pullback_to_ema
      else if uptrend && or_false (λ s. price ⊖ s ≤? atr_abs) s1
      then some support_test
      else none

  unfoldable pub detect_short_setup :
      SwingReport F → F → List (SwingBar F) → F → List (SwingBar F) → Option SwingSetup
  detect_short_setup report price bars atr_abs ind =
      let names = report.signals in
      let rsi = rsi_or_neutral bars ind in
      let r1 = level_above price report.levels in
      let downtrend = or_false (λ sma50. price ≤? sma50) (last_of (λ b. b.sma50) ind) in
      if report.trend_change.likely && leans_bear report.trend_change.direction
      then some trend_change_down
      else if has_signal (codes "premarket_gap_down") names
          || (has_signal (codes "macd_bear_cross") names && has_signal (codes "volume_spike") names)
      then some momentum_gap_down
      else if (rsi ≥? lit 60 0) && ltb 0 (length (confirms true names))
      then some overbought_reversal
      else if downtrend && or_false (λ r. r ⊖ price ≤? atr_abs) r1
      then some rally_into_resistance
      else none
