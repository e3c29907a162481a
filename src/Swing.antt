-- ===== src/Swing.antt =====
-- What the swing plan of stockanalyzer/explain/swing.py reads and returns, and the tuning by pace of
-- stockanalyzer/strategy.py.
pub mod Levels
pub mod Spacing
pub mod LevelMap
pub mod Volatility
pub mod Reach
pub mod Long
pub mod Short
pub mod Aims
pub mod Setup
pub mod Emerging
pub mod Checks
pub mod Score
pub mod Plan
pub mod Build
pub mod Orders
pub mod Tests
use stock_graph_analyzer.Base.{
  ℕ, Bool, true, false, Option, some, none, List, [], ◌∷◌, if◌then◌else◌, Text, map, Bool,
}
use stock_graph_analyzer.Float.{Float, lit}
use stock_graph_analyzer.Frames.{
  Bar, Frame, Reports, Timeframe, timeframe_eq, d1, d5, m1, m6, ytd, y1, y5,
}
use stock_graph_analyzer.Signals.{Direction, TrendChange}
use stock_graph_analyzer.Verdict.{SwingPace, standard, fast}

-- A bar with the indicators of its frame. An indicator that is NaN, or of a column that is not there,
-- is `none`; `validate_ohlcv` of stockanalyzer/data/schema.py leaves no NaN in the prices and the volume.
-- `day` numbers the index's calendar day, `minute` is its "%H:%M", and `et_minute` the minute of the day in
-- Eastern Time.
pub record SwingBar (F : Type 0) : Type 0 where
  pub day : ℕ
  pub minute : ℕ
  pub et_minute : ℕ
  pub opening : F
  pub high : F
  pub low : F
  pub close : F
  pub volume : F
  pub atr : Option F
  pub rsi : Option F
  pub sma20 : Option F
  pub sma50 : Option F
  pub sma200 : Option F
  pub ema8 : Option F
  pub ema20 : Option F
  pub macd : Option F
  pub macd_signal : Option F
  pub macd_hist : Option F
  pub adx : Option F
  pub plus_di : Option F
  pub minus_di : Option F
  pub bb_upper : Option F
  pub bb_lower : Option F

-- of `TimeframeReport`: the prices of the levels, the names of the signals, the direction of the trend;
-- `dated`, `has_ema8` and `has_atr` are those of Frames.Frame
pub record SwingReport (F : Type 0) : Type 0 where
  pub levels : List F
  pub signals : List Text
  pub bias_score : F
  pub trend : Direction
  pub dated : Bool
  pub has_ema8 : Bool
  pub has_atr : Bool
  pub trend_change : TrendChange F
  pub last_close : Option F
  pub bars : List (SwingBar F)

abbrev pub AllReports : Type 0 → Type 0
AllReports F = List (Timeframe × SwingReport F)

-- the columns that Frames.Frame has
abbrev pub frame_bar : {F : Type 0} → SwingBar F → Bar F
frame_bar b = record { day = b.day; minute = b.minute; close = b.close; ema8 = b.ema8; atr = b.atr }

abbrev pub frame_of : {F : Type 0} → SwingReport F → Frame F
frame_of rep = record {
  bars = map frame_bar rep.bars;
  dated = rep.dated;
  has_ema8 = rep.has_ema8;
  has_atr = rep.has_atr;
}

abbrev pub frames_of : {F : Type 0} → AllReports F → Reports F
frames_of [] = []
frames_of ((tf, rep) ∷ rest) = (tf, frame_of rep) ∷ frames_of rest

abbrev pub report_at : {F : Type 0} → AllReports F → Timeframe → Option (SwingReport F)
report_at [] tf = none
report_at ((k, rep) ∷ rest) tf =
    let later = report_at rest tf in if timeframe_eq k tf then some rep else later

-- the first of some timeframes that has a report
abbrev pub first_report : {F : Type 0} → AllReports F → List Timeframe → Option (SwingReport F)
first_report reports [] = none
first_report reports (tf ∷ tfs) = elim (report_at reports tf) [
  | some rep ↦ some rep
  | none ↦ first_report reports tfs
]

-- `_last(df, col)`
abbrev pub last_of : {F : Type 0} → (SwingBar F → Option F) → List (SwingBar F) → Option F
last_of col [] = none
last_of col (b ∷ bs) = elim (last_of col bs) [ some x ↦ some x | none ↦ col b ]

-- `df[col].dropna()`
abbrev pub values_of : {F : Type 0} → (SwingBar F → Option F) → List (SwingBar F) → List F
values_of col [] = []
values_of col (b ∷ bs) = elim (col b) [ some x ↦ x ∷ values_of col bs | none ↦ values_of col bs ]

-- `_DAILY_FRAMES`
abbrev pub daily_frames : List Timeframe
daily_frames = m6 ∷ m1 ∷ ytd ∷ y1 ∷ []

pub record PaceTuning (F : Type 0) : Type 0 where
  pub stop_atr_mult : F
  pub budget_days : F
  pub target_cap : F
  pub min_move : F
  pub earnings_guard_days : ℕ

-- `SWING_PACE`, without the words for the horizon
abbrev pub swing_pace : {F : Type 0} ⦃f : Float F⦄ → SwingPace → PaceTuning F
swing_pace standard = record {
  stop_atr_mult = lit 12 1;
  budget_days = lit 10 0;
  target_cap = lit 15 2;
  min_move = lit 5 2;
  earnings_guard_days = 14;
}
swing_pace fast = record {
  stop_atr_mult = lit 7 1;
  budget_days = lit 3 0;
  target_cap = lit 12 2;
  min_move = lit 3 2;
  earnings_guard_days = 3;
}

-- `math.sqrt`, and the median and the mean of pandas
pub record Stats (F : Type 0) : Type 0 where
  pub sqrt : F → F
  pub median : List F → F
  pub mean : List F → F

pub data PlanKind : Type 0 where
  immediate breakout_wait no_trade : PlanKind

-- `_Geometry`, without its note
pub record Geometry (F : Type 0) : Type 0 where
  pub kind : PlanKind
  pub entry : F
  pub stop : F
  pub target : F
  pub trigger : Option F
