-- ===== src/Frames.antt =====
-- The frames that the engine reads: bars in the order of the index, with the columns the modelled
-- code looks at. A NaN in an indicator column is `none`.
use stock_graph_analyzer.Base.{
  ℕ, ◌==◌, Bool, true, false, not, ◌||◌, Option, none, some, List, [], ◌∷◌, if◌then◌else◌, ltb,
  length, filter, any, take,
}
use stock_graph_analyzer.Float.{Float, max}

-- `Timeframe` of stockanalyzer/data/schema.py
pub data Timeframe : Type 0 where
  d1 d5 m1 m6 ytd y1 y5 : Timeframe

abbrev pub timeframe_eq : Timeframe → Timeframe → Bool
timeframe_eq d1 d1 = true
timeframe_eq d5 d5 = true
timeframe_eq m1 m1 = true
timeframe_eq m6 m6 = true
timeframe_eq ytd ytd = true
timeframe_eq y1 y1 = true
timeframe_eq y5 y5 = true
timeframe_eq _ _ = false

-- `day` numbers the index's calendar day and `minute` is its "%H:%M".
pub record Bar (F : Type 0) : Type 0 where
  pub day : ℕ
  pub minute : ℕ
  pub close : F
  pub ema8 : Option F
  pub atr : Option F

-- `dated`: the index is a DatetimeIndex; `has_ema8`, `has_atr`: the column is there
pub record Frame (F : Type 0) : Type 0 where
  pub bars : List (Bar F)
  pub dated : Bool
  pub has_ema8 : Bool
  pub has_atr : Bool

-- the reports by timeframe, of which only the frames are read here
abbrev pub Reports : Type 0 → Type 0
Reports F = List (Timeframe × Frame F)

abbrev intraday_order : List Timeframe
intraday_order = d1 ∷ d5 ∷ m1 ∷ []

abbrev pub get_last? : {A : Type 0} → List A → Option A
get_last? [] = none
get_last? (x ∷ []) = some x
get_last? (x ∷ y ∷ ys) = get_last? (y ∷ ys)

module _ {F : Type 0} where
  pub report_for : Timeframe → Reports F → Option (Frame F)
  report_for tf [] = none
  report_for tf ((k, df) ∷ rest) = if timeframe_eq k tf then some df else report_for tf rest

  -- `set` of the values of `minute` among the first bars has more than one element
  abbrev pub many_minutes : List (Bar F) → Bool
  many_minutes [] = false
  many_minutes (b ∷ bs) = any (λ c. not (c.minute == b.minute)) bs

  -- `is_intraday` of stockanalyzer/data/market_session.py
  pub is_intraday : Frame F → Bool
  is_intraday df =
      if not df.dated || ltb (length df.bars) 2 then false else many_minutes (take 50 df.bars)

  abbrev first_that : (Frame F → Bool) → List Timeframe → Reports F → Option (Frame F)
  first_that test [] reports = none
  first_that test (tf ∷ tfs) reports = elim (report_for tf reports) [
    | none ↦ first_that test tfs reports
    | some df ↦ if test df then some df else first_that test tfs reports
  ]

  -- `_intraday_frame` of stockanalyzer/analysis/daycard.py
  unfoldable pub intraday_frame : Reports F → Option (Frame F)
  unfolding is_intraday report_for
  intraday_frame reports = elim (first_that is_intraday intraday_order reports) [
    | some df ↦ some df
    | none ↦ first_that (λ _. true) intraday_order reports
  ]

  abbrev same_day : List (Bar F) → Option (Bar F) → List (Bar F)
  same_day bars none = bars
  same_day bars (some last) = filter (λ b. b.day == last.day) bars

  -- `_session_bars` of stockanalyzer/analysis/daycard.py; the last bar is always of its own day
  unfoldable pub session_bars : Frame F → List (Bar F)
  session_bars df = if not df.dated then df.bars else same_day df.bars (get_last? df.bars)

  -- the last value of a column that is not NaN: `df[col].dropna().iloc[-1]`
  unfoldable pub last_value : (Bar F → Option F) → List (Bar F) → Option F
  last_value col [] = none
  last_value col (b ∷ bs) = elim (last_value col bs) [ some x ↦ some x | none ↦ col b ]

  abbrev pub last_close : List (Bar F) → Option F
  last_close bars = elim (get_last? bars) [ none ↦ none | some b ↦ some b.close ]

  -- `closes.max()`, for bars that are not empty
  abbrev pub highest_close : ⦃f : Float F⦄ → Bar F → List (Bar F) → F
  highest_close b [] = b.close
  highest_close b (c ∷ cs) = max b.close (highest_close c cs)
