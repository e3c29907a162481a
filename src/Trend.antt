-- ===== src/Trend.antt =====
-- The trend change of stockanalyzer/analysis/trend_change.py, on the signals of
-- stockanalyzer/analysis/signals.py.
pub mod Pool
pub mod Assessed
mod Tests
use stock_graph_analyzer.Base.{
  ◌-◌, Bool, true, false, not, ◌&&◌, List, [], ◌∷◌, if◌then◌else◌, map, filter, any, length, Text,
  text_eq, codes,
}
use stock_graph_analyzer.Float.{Float, ◌⊕◌, ◌⊗◌, ◌⊘◌, ◌≥?◌, ◌=?◌, lit, max, min, round}
use stock_graph_analyzer.Signals.{Direction, bull, bear, neutral, TrendChange}

-- what the assessment reads of a `Signal`
pub record Signal (F : Type 0) : Type 0 where
  pub name : Text
  pub direction : Direction
  pub strength : F
  pub evidence : Text

abbrev pub direction_eq : Direction → Direction → Bool
direction_eq bull bull = true
direction_eq bear bear = true
direction_eq neutral neutral = true
direction_eq _ _ = false

abbrev pub reversal_names : List Text
reversal_names =
    codes "uptrend_line_break"
    ∷ codes "downtrend_line_break"
    ∷ codes "golden_cross"
    ∷ codes "death_cross"
    ∷ codes "rsi_bearish_divergence"
    ∷ codes "rsi_bullish_divergence"
    ∷ codes "double_top"
    ∷ codes "double_bottom"
    ∷ codes "head_and_shoulders"
    ∷ codes "inverse_head_and_shoulders"
    ∷ codes "bullish_engulfing"
    ∷ codes "bearish_engulfing"
    ∷ codes "hammer"
    ∷ codes "shooting_star"
    ∷ codes "premarket_gap_up"
    ∷ codes "premarket_gap_down"
    ∷ codes "afterhours_move_up"
    ∷ codes "afterhours_move_down"
    ∷ []

module _ {F : Type 0} where
  unfoldable pub is_trigger : Signal F → Bool
  is_trigger s = any (text_eq s.name) reversal_names

  abbrev pub is_opposing : Direction → Signal F → Bool
  is_opposing trend s =
      not (direction_eq s.direction neutral) && not (direction_eq s.direction trend)

  abbrev pub or_all : List (Signal F) → List (Signal F) → List (Signal F)
  or_all [] all = all
  or_all (s ∷ ss) all = s ∷ ss

  -- the triggers against the trend, or all triggers
  unfoldable pub pool_of : Direction → List (Signal F) → List (Signal F)
  unfolding is_trigger
  pool_of trend signals =
      let triggers = filter is_trigger signals in
      or_all (filter (is_opposing trend) triggers) triggers

  abbrev pub reasons_of : Direction → List (Signal F) → List Text
  reasons_of d pool =
      map (λ (s : Signal F). s.evidence) (filter (λ s. direction_eq s.direction d) pool)

module _ {F : Type 0} ⦃f : Float F⦄ where
  -- `Signal(...)`: the strength is clamped
  unfoldable pub make_signal : Text → Direction → F → Text → Signal F
  make_signal name direction strength evidence = record {
    name = name;
    direction = direction;
    strength = max (lit 0 0) (min (lit 1 0) strength);
    evidence = evidence;
  }

  abbrev pub sum_from : F → List (Signal F) → F
  sum_from total [] = total
  sum_from total (s ∷ ss) = sum_from (total ⊕ s.strength) ss

  -- the strength of a direction
  unfoldable pub total : Direction → List (Signal F) → F
  total d pool = sum_from (lit 0 0) (filter (λ s. direction_eq s.direction d) pool)

  abbrev pub calm_change : TrendChange F
  calm_change = record { likely = false; direction = neutral; score = lit 0 0; reasons = [] }

  abbrev pub stacked : F → List (Signal F) → F
  stacked dominant pool =
      min (lit 1 0) (dominant ⊘ (dominant ⊕ lit 1 0) ⊕ lit 1 1 ⊗ lit (length pool - 1) 0)

  abbrev pub dominant_direction : F → F → Direction
  dominant_direction bullish bearish = if bullish ≥? bearish then bull else bear

  abbrev pub weigh_change : F → F → List (Signal F) → TrendChange F
  weigh_change bullish bearish pool =
      let d = dominant_direction bullish bearish in
      let score = stacked (max bullish bearish) pool in
      if bullish =? bearish && (bearish =? lit 0 0) then calm_change else record {
        likely = score ≥? lit 5 1;
        direction = d;
        score = round score 3;
        reasons = reasons_of d pool;
      }

  abbrev pub weigh_pool : List (Signal F) → TrendChange F
  weigh_pool [] = calm_change
  weigh_pool (s ∷ ss) = weigh_change (total bull (s ∷ ss)) (total bear (s ∷ ss)) (s ∷ ss)

  -- there is no trigger exactly where the pool is empty
  unfoldable pub assess_trend_change : Signal F → List (Signal F) → TrendChange F
  unfolding pool_of total
  assess_trend_change current signals = weigh_pool (pool_of current.direction signals)
