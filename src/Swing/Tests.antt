-- ===== src/Swing/Tests.antt =====
-- Runs of the swing plan on concrete charts.
use stock_graph_analyzer.Base.{◌≡◌, refl, true, false, some, none, List, [], ◌∷◌, codes}
use stock_graph_analyzer.Base.Int.{ℤ, ◌+ℤ◌, ◌-ℤ◌}
use stock_graph_analyzer.Float.{lit, ◌⊘◌}
use stock_graph_analyzer.Float.Fixed.{fixed_float, round_to, floor_to, Fixed-IsOrdered}
use stock_graph_analyzer.Frames.{m6}
use stock_graph_analyzer.Signals.{bull}
use stock_graph_analyzer.Verdict.{standard}
use stock_graph_analyzer.Swing.{SwingBar, SwingReport, Stats, swing_pace, Geometry, immediate}
use stock_graph_analyzer.Swing.Reach.{target_reach}
use stock_graph_analyzer.Swing.Long.{long_geometry, climb, leg_target as long_leg}
use stock_graph_analyzer.Swing.Short.{short_geometry, descend, leg_target as short_leg}
use stock_graph_analyzer.Swing.Levels.{merged_levels}
use stock_graph_analyzer.Swing.LevelMap.{IsLevelMap, merged_levels-IsLevelMap}
use stock_graph_analyzer.Swing.Emerging.{EmergingScore, score_emerging}
use stock_graph_analyzer.Swing.Emerging.Caps.{IsCapped, score_emerging-IsCapped}
use stock_graph_analyzer.Swing.Checks.{
  SwingContext, SwingCheck, row, na_row, valid_setup, reward_enough, clear_path, soft_rsi, ma_side,
}
use stock_graph_analyzer.Swing.Score.{swing_score}
use stock_graph_analyzer.Swing.Score.Bands.{IsScored, swing_score-IsScored}
use stock_graph_analyzer.Swing.Plan.{buy}
use stock_graph_analyzer.Swing.Build.{build_swing_plan, side_input}
use stock_graph_analyzer.Swing.Orders.{IsOrderly, build_swing_plan-IsOrderly}
use stock_graph_analyzer.Swing.Aims.Long
use stock_graph_analyzer.Swing.Aims.Short

abbrev stats : Stats ℤ
stats = record { sqrt = λ x. x ⊘ lit 3 0; median = λ xs. lit 2 2; mean = λ xs. lit 1000 0 }

abbrev bar : ℤ → ℤ → ℤ → ℤ → SwingBar ℤ
bar opening high low close = record {
  day = 1;
  minute = 0;
  et_minute = 0;
  ema8 = none;
  opening = opening;
  high = high;
  low = low;
  close = close;
  volume = lit 1000 0;
  atr = some (lit 2 0);
  rsi = some (lit 48 0);
  sma20 = some (lit 98 0);
  sma50 = some (lit 95 0);
  sma200 = none;
  ema20 = some (lit 99 0);
  macd = none;
  macd_signal = none;
  macd_hist = none;
  adx = none;
  plus_di = none;
  minus_di = none;
  bb_upper = none;
  bb_lower = none;
}

abbrev chart : List (SwingBar ℤ)
chart =
    bar (lit 98 0) (lit 101 0) (lit 97 0) (lit 99 0)
    ∷ bar (lit 99 0) (lit 101 0) (lit 98 0) (lit 100 0)
    ∷ []

abbrev report : SwingReport ℤ
report = record {
  levels = lit 110 0 ∷ lit 112 0 ∷ lit 99 0 ∷ lit 120 0 ∷ [];
  signals = codes "hammer" ∷ [];
  bias_score = lit 2 1;
  trend = bull;
  dated = true;
  has_ema8 = false;
  has_atr = true;
  trend_change = record { likely = false; direction = bull; score = lit 0 0; reasons = [] };
  last_close = some (lit 100 0);
  bars = chart;
}

abbrev context : SwingContext ℤ
context = record {
  investor_pct = some (lit 60 0);
  sentiment = some (lit 1 1);
  earnings_days = some 30;
  analyst_target = none;
  offering_price = none;
  vwap = none;
}

abbrev walls : List ℤ
walls = lit 102 0 ∷ lit 110 0 ∷ []

abbrev floors : List ℤ
floors = lit 98 0 ∷ lit 90 0 ∷ []

-- three percent of room is too little: the plan waits at the first wall
long_kind :
    (long_geometry stats
      (lit 100 0)
      walls
      (lit 2 0)
      (lit 5 0)
      (swing_pace standard)
      false
      false).trigger
    ≡ some (lit 102 0)
unfolding long_geometry climb long_leg target_reach ◌+ℤ◌ ◌-ℤ◌
long_kind = refl

short_kind :
    (short_geometry stats
      (lit 100 0)
      floors
      (lit 2 0)
      (lit 5 0)
      (swing_pace standard)
      false
      false).trigger
    ≡ some (lit 98 0)
unfolding short_geometry descend short_leg target_reach ◌+ℤ◌ ◌-ℤ◌
short_kind = refl

long_geometry-IsHonest_example :
    Long.IsHonest
      (lit 100 0)
      (target_reach stats (swing_pace standard) (lit 100 0) (lit 5 0))
      (swing_pace standard)
      true
      walls
      (long_geometry stats (lit 100 0) walls (lit 2 0) (lit 5 0) (swing_pace standard) false false)
long_geometry-IsHonest_example =
    Long.long_geometry-IsHonest Fixed-IsOrdered stats (lit 100 0) walls (lit 2 0) (lit 5 0)
      (swing_pace standard) false false

short_geometry-IsHonest_example :
    Short.IsHonest
      (lit 100 0)
      (target_reach stats (swing_pace standard) (lit 100 0) (lit 5 0))
      (swing_pace standard)
      true
      floors
      (short_geometry stats
        (lit 100 0)
        floors
        (lit 2 0)
        (lit 5 0)
        (swing_pace standard)
        false
        false)
short_geometry-IsHonest_example =
    Short.short_geometry-IsHonest Fixed-IsOrdered stats (lit 100 0) floors (lit 2 0) (lit 5 0)
      (swing_pace standard) false false

merged_levels-IsLevelMap_example :
    IsLevelMap (lit 100 0) (merged_levels report none ((m6, report) ∷ []) (lit 100 0) (lit 2 0))
unfolding ◌+ℤ◌ ◌-ℤ◌
merged_levels-IsLevelMap_example =
    merged_levels-IsLevelMap Fixed-IsOrdered (lit 100 0) (lit 2 0) refl refl report none
      ((m6, report) ∷ [])

score_emerging-IsCapped_example :
    (es : EmergingScore ℤ) × ((score_emerging chart none (some (lit 99 0)) ≡ some es) × IsCapped es)
score_emerging-IsCapped_example =
    score_emerging-IsCapped Fixed-IsOrdered (bar (lit 98 0) (lit 101 0) (lit 97 0) (lit 99 0))
      (bar (lit 99 0) (lit 101 0) (lit 98 0) (lit 100 0) ∷ []) none (some (lit 99 0))

build_swing_plan-IsOrderly_example :
    IsOrderly stats
      (side_input stats report none standard (lit 100 0) ((m6, report) ∷ []) context)
      buy
      (build_swing_plan stats report none buy standard none ((m6, report) ∷ []) context)
build_swing_plan-IsOrderly_example =
    build_swing_plan-IsOrderly Fixed-IsOrdered stats report none buy standard none
      ((m6, report) ∷ []) context

abbrev checks : List SwingCheck
checks =
    row valid_setup true 15
    ∷ row reward_enough true 12
    ∷ row clear_path true 8
    ∷ row soft_rsi true 9
    ∷ na_row ma_side 5
    ∷ []

abbrev scalp : Geometry ℤ
scalp = record {
  kind = immediate;
  entry = lit 100 0;
  stop = lit 98 0;
  target = lit 106 0;
  trigger = none;
}

swing_score-IsScored_example :
    IsScored true false (lit 3 0) scalp checks (swing_score true false (lit 3 0) scalp checks)
swing_score-IsScored_example =
    swing_score-IsScored Fixed-IsOrdered refl refl true false (lit 3 0) scalp checks

-- 44 of 46.5, and 8 for the rebound
scored_hundred : (swing_score true false (lit 3 0) scalp checks).0 ≡ lit 100 0
unfolding swing_score round_to floor_to ◌+ℤ◌ ◌-ℤ◌
scored_hundred = refl
