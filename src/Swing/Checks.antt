-- ===== src/Swing/Checks.antt =====
-- The rows of the checklist of `_swing_score`, stockanalyzer/explain/swing.py. A row has its name without
-- the frame or side that the text adds, and no detail text.
use stock_graph_analyzer.Base.{
  ℕ, Bool, true, false, not, ◌&&◌, ◌||◌, Option, some, none, List, [], ◌∷◌, ◌++◌, if◌then◌else◌,
  ltb, leb, length, filter, any,
}
use stock_graph_analyzer.Float.{Float, ◌⊖◌, ◌⊗◌, ◌⊘◌, ◌≥?◌, ◌≤?◌, ◌>?◌, ◌<?◌, lit, neg, truthy}
use stock_graph_analyzer.Frames.{Timeframe, d1, d5, m1, m6, y1}
use stock_graph_analyzer.Swing.{
  SwingBar, SwingReport, AllReports, report_at, first_report, last_of, values_of, Geometry,
}
use stock_graph_analyzer.Swing.Levels.{highest, lowest, absolute}
use stock_graph_analyzer.Swing.Volatility.{CrashInfo, tail, adx_trend}

-- the `context`: what is not there is `none`
pub record SwingContext (F : Type 0) : Type 0 where
  pub investor_pct : Option F
  pub sentiment : Option F
  pub earnings_days : Option ℕ
  pub analyst_target : Option F
  pub offering_price : Option F
  pub vwap : Option F

pub data CheckName : Type 0 where
  valid_setup reward_enough clear_path no_snapback soft_rsi range_half ma_side macd_side
        bias_agrees :
      CheckName
  rsi_sane no_chase not_extended inside_band adx_agrees no_conflict tailwind headroom
        earnings_proximity :
      CheckName
  street_sanity fast_energy confluence : CheckName

pub record SwingCheck : Type 0 where
  pub name : CheckName
  pub ok : Bool
  pub weight : ℕ
  pub na : Bool

abbrev pub row : CheckName → Bool → ℕ → SwingCheck
row name ok weight = record { name = name; ok = ok; weight = weight; na = false }

-- a row that could not be computed
abbrev pub na_row : CheckName → ℕ → SwingCheck
na_row name weight = record { name = name; ok = false; weight = weight; na = true }

-- a row for a value that may be missing, or for two or three values
abbrev pub row_if : {A : Type 0} → Option A → (A → SwingCheck) → List SwingCheck
row_if none build = []
row_if (some x) build = build x ∷ []

abbrev pub pair_of : {A B : Type 0} → Option A → Option B → Option (A × B)
pair_of (some x) (some y) = some (x, y)
pair_of _ _ = none

module _ {F : Type 0} ⦃f : Float F⦄ where
  -- `x` if it is there and true
  abbrev pub if_truthy : Option F → Option F
  if_truthy none = none
  if_truthy (some x) = if truthy x then some x else none

  -- `x >= y` for a long side, `x <= y` for a short one
  abbrev pub on_side : Bool → F → F → Bool
  on_side bull x y = if bull then x ≥? y else x ≤? y

  -- `lo * 1.001 < w < hi * 0.999`, between the two prices
  abbrev pub blocks : F → F → F → Bool
  blocks a b w =
      let lo = if b <? a then b else a in
      let hi = if b <? a then a else b in lo ⊗ lit 1001 3 <? w && (w <? hi ⊗ lit 999 3)

  unfoldable pub entry_rows :
      Bool → Bool → Bool → F → Geometry F → List F → CrashInfo F → List SwingCheck
  entry_rows bull setup_present countertrend rr geom levels crash =
      row valid_setup setup_present (if countertrend then 8 else 15)
      ∷ row reward_enough (rr ≥? lit 15 1) 12
      ∷ row clear_path (not (any (blocks geom.entry geom.target) levels)) 8
      ∷ row_if crash.extreme (λ _. row no_snapback (not (crash.in_regime && crash.large_aim)) 10)

  -- where the entry is in the range of the last 60 bars
  abbrev range_check : Bool → F → Option F → Option F → List SwingCheck
  range_check bull entry (some lo) (some hi) =
      if hi >? lo
      then row range_half (on_side (not bull) ((entry ⊖ lo) ⊘ (hi ⊖ lo)) (lit 5 1)) 9 ∷ []
      else []
  range_check bull entry _ _ = []

  unfoldable pub rebound_rows : Bool → F → List (SwingBar F) → List SwingCheck
  rebound_rows bull entry bars =
      let win = tail 60 bars in
      row_if (last_of (λ b. b.rsi) bars)
        (λ rsi. row soft_rsi (on_side (not bull) rsi (if bull then lit 45 0 else lit 55 0)) 9)
      ++ (if ltb (length win) 20
          then []
          else range_check bull entry (lowest (values_of (λ b. some b.low) win))
              (highest (values_of (λ b. some b.high) win)))

  abbrev side_row : CheckName → Bool → Option (F × F) → ℕ → SwingCheck
  side_row name bull none weight = na_row name weight
  side_row name bull (some (x, y)) weight = row name (on_side bull x y) weight

  -- `_frame_rows`
  unfoldable pub frame_rows :
      Bool → List (SwingBar F) → (SwingBar F → Option F) → ℕ → ℕ → List SwingCheck
  frame_rows bull bars ma_col w_ma w_macd =
      side_row ma_side bull (pair_of (last_of (λ b. some b.close) bars) (last_of ma_col bars)) w_ma
      ∷ side_row macd_side bull
          (pair_of (last_of (λ b. b.macd) bars) (last_of (λ b. b.macd_signal) bars)) w_macd
      ∷ []

  abbrev rows_of_frame :
      Bool → Option (SwingReport F) → (SwingBar F → Option F) → ℕ → ℕ → List SwingCheck
  rows_of_frame bull none ma_col w_ma w_macd = []
  rows_of_frame bull (some rep) ma_col w_ma w_macd = frame_rows bull rep.bars ma_col w_ma w_macd

  -- over `_TF_CHECKS`, the six months replaced by one month where they are missing; or over the chart
  unfoldable pub trend_rows : Bool → AllReports F → List (SwingBar F) → List SwingCheck
  unfolding frame_rows
  trend_rows bull [] bars = frame_rows bull bars (λ b. b.sma20) 12 10
  trend_rows bull (r ∷ rs) bars =
      rows_of_frame bull (report_at (r ∷ rs) d5) (λ b. b.sma20) 4 3
      ++ (rows_of_frame bull (first_report (r ∷ rs) (m6 ∷ m1 ∷ [])) (λ b. b.sma50) 5 4
          ++ rows_of_frame bull (report_at (r ∷ rs) y1) (λ b. b.sma200) 4 2)

  -- the biases of the frames that are there
  abbrev biases : AllReports F → List Timeframe → List F
  biases reports [] = []
  biases reports (tf ∷ tfs) = elim (report_at reports tf) [
    | some rep ↦ rep.bias_score ∷ biases reports tfs
    | none ↦ biases reports tfs
  ]

  abbrev bias_rows : Bool → List F → List SwingCheck
  bias_rows bull [] = []
  bias_rows bull (v ∷ vs) =
      let aligned =
        length (filter (λ b. if bull then b >? lit 1 1 else b <? neg (lit 1 1)) (v ∷ vs)) in
      row bias_agrees (leb (if leb 2 (length (v ∷ vs)) then 2 else 1) aligned) 6 ∷ []

  abbrev or_pass : (F → Bool) → Option F → Bool
  or_pass test none = true
  or_pass test (some x) = test x

  abbrev last_in : (SwingBar F → Option F) → Option (SwingReport F) → Option F
  last_in col none = none
  last_in col (some rep) = last_of col rep.bars

  unfoldable pub momentum_rows : Bool → AllReports F → List (SwingBar F) → List SwingCheck
  momentum_rows bull reports bars =
      bias_rows bull (biases reports (d1 ∷ d5 ∷ m1 ∷ []))
      ++ row_if (last_of (λ b. b.rsi) bars) (λ rsi.
        row rsi_sane
          (if bull
            then rsi ≤? lit 70 0
              && or_pass (λ r. r ≤? lit 75 0) (last_in (λ b. b.rsi) (report_at reports m1))
            else rsi ≥? lit 30 0
              && or_pass (λ r. r ≥? lit 25 0) (last_in (λ b. b.rsi) (report_at reports m1)))
          4)

  -- a move of at least `_CHASE_PCT` from one close to the next
  abbrev big_moves : F → List F → Bool
  big_moves x [] = false
  big_moves x (y ∷ ys) =
      let rest = big_moves y ys in absolute ((y ⊘ x ⊖ lit 1 0) ⊗ lit 100 0) ≥? lit 5 0 || rest

  abbrev is_chased : List F → Bool
  is_chased [] = false
  is_chased (x ∷ xs) = leb 3 (length xs) && big_moves x xs

  abbrev adx_ok : Bool → F → F × F → Bool
  adx_ok bull adx (plus_di, minus_di) =
      (if bull then plus_di ≥? minus_di else minus_di ≥? plus_di) || (adx <? adx_trend)

  -- the rows of the daily bars
  unfoldable pub daily_rows : Bool → List (SwingBar F) → List SwingCheck
  daily_rows bull bars =
      let price = if_truthy (last_of (λ b. some b.close) bars) in
      let sma20 = if_truthy (last_of (λ b. b.sma20) bars) in
      let band = if_truthy (last_of (λ b. if bull then b.bb_upper else b.bb_lower) bars) in
      let di = pair_of (last_of (λ b. b.plus_di) bars) (last_of (λ b. b.minus_di) bars) in
      row no_chase (not (is_chased (tail 4 (values_of (λ b. some b.close) bars)))) 6
      ∷ (row_if (pair_of price sma20) (λ (p, ma).
            row not_extended
              (on_side (not bull) ((p ⊘ ma ⊖ lit 1 0) ⊗ lit 100 0)
                (if bull then lit 10 0 else neg (lit 10 0)))
              5)
          ++ (row_if (pair_of price band) (λ (p, bb). row inside_band (on_side (not bull) p bb) 5)
              ++ row_if (pair_of (last_of (λ b. b.adx) bars) di)
                  (λ (adx, d). row adx_agrees (adx_ok bull adx d) 5)))

  abbrev daily_rows_of : Bool → Option (SwingReport F) → List SwingCheck
  daily_rows_of bull none = []
  daily_rows_of bull (some rep) = daily_rows bull rep.bars

  unfoldable pub outside_rows : Bool → SwingContext F → List SwingCheck
  outside_rows bull context =
      row_if context.investor_pct
        (λ pct. row no_conflict (on_side bull pct (if bull then lit 45 0 else lit 55 0)) 4)
      ++ row_if context.sentiment
          (λ s. row tailwind (on_side bull s (if bull then lit 5 2 else neg (lit 5 2))) 6)

  -- the highest price of the first of the frames with a bar
  abbrev year_high : AllReports F → List Timeframe → Option F
  year_high reports [] = none
  year_high reports (tf ∷ tfs) = elim (report_at reports tf) [
    | none ↦ year_high reports tfs
    | some rep ↦ elim (highest (values_of (λ b. some b.high) rep.bars)) [
      | none ↦ year_high reports tfs
      | some hi ↦ some hi
    ]
  ]

  -- the rows without weight
  unfoldable pub info_rows :
      Bool → Geometry F → Bool → AllReports F → ℕ → SwingContext F → List SwingCheck
  info_rows bull geom fast reports guard context =
      row_if (if_truthy (year_high reports (y1 ∷ m6 ∷ [])))
        (λ hi. row headroom (geom.target ≤? hi ⊗ lit 1001 3) 0)
      ++ (row_if context.earnings_days (λ days. row earnings_proximity (ltb guard days) 0)
          ++ (row_if (if_truthy context.analyst_target)
                (λ t. row street_sanity (on_side bull t geom.entry) 0)
              ++ (row fast_energy fast 0 ∷ [])))

  unfoldable pub check_rows :
      Bool
      → Bool
      → Bool
      → F
      → Geometry F
      → List F
      → Bool
      → List (SwingBar F)
      → AllReports F
      → ℕ
      → SwingContext F
      → CrashInfo F
      → List SwingCheck
  unfolding entry_rows rebound_rows trend_rows momentum_rows daily_rows outside_rows info_rows
  check_rows bull setup_present countertrend rr geom levels fast bars reports guard context crash =
      entry_rows bull setup_present countertrend rr geom levels crash
      ++ (rebound_rows bull geom.entry bars
          ++ (trend_rows bull reports bars
              ++ (momentum_rows bull reports bars
                  ++ (daily_rows_of bull (first_report reports (m6 ∷ m1 ∷ y1 ∷ []))
                      ++ (outside_rows bull context
                          ++ info_rows bull geom fast reports guard context)))))
