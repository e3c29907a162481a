-- ===== src/Verdict.antt =====
-- The verdict over all timeframes: stockanalyzer/verdict/aggregate.py, `build_verdict`.
pub mod Bounds
pub mod Tests
use stock_graph_analyzer.Base.{
  Option, some, none, List, [], ◌∷◌, ◌++◌, if◌then◌else◌, ℕ, zero, suc, ◌+◌, ltb, Bool, true, false,
  filter, length, map,
}
use stock_graph_analyzer.Float.{
  Float, ◌⊕◌, ◌⊖◌, ◌⊗◌, ◌⊘◌, ◌>?◌, ◌<?◌, lit, neg, round, max, min, truthy,
}
use stock_graph_analyzer.Frames.{Timeframe, d1, d5, m1, m6, ytd, y1, y5}
use stock_graph_analyzer.Signals.{Direction, bull, bear, neutral}

-- `Strategy` and `SwingPace` of stockanalyzer/strategy.py
pub data Strategy : Type 0 where
  investor swing : Strategy

pub data SwingPace : Type 0 where
  standard fast : SwingPace

pub data Label : Type 0 where
  buy_lean sell_lean hold : Label

pub record Verdict (F : Type 0) : Type 0 where
  pub label : Label
  pub direction : Direction
  pub score : F
  pub confidence : F
  pub per_timeframe : List (Timeframe × F)

-- the bias scores of the reports, by timeframe
abbrev pub Biases : Type 0 → Type 0
Biases F = List (Timeframe × F)

abbrev larger : ℕ → ℕ → ℕ
larger a b = if ltb a b then b else a

module _ {F : Type 0} ⦃f : Float F⦄ where
  abbrev pub timeframe_weights : Timeframe → F
  timeframe_weights d1 = lit 5 1
  timeframe_weights d5 = lit 7 1
  timeframe_weights m1 = lit 1 0
  timeframe_weights ytd = lit 12 1
  timeframe_weights m6 = lit 13 1
  timeframe_weights y1 = lit 15 1
  timeframe_weights y5 = lit 16 1

  abbrev pub swing_timeframe_weights : Timeframe → F
  swing_timeframe_weights d1 = lit 15 1
  swing_timeframe_weights d5 = lit 14 1
  swing_timeframe_weights m1 = lit 13 1
  swing_timeframe_weights ytd = lit 8 1
  swing_timeframe_weights m6 = lit 7 1
  swing_timeframe_weights y1 = lit 5 1
  swing_timeframe_weights y5 = lit 4 1

  abbrev pub swing_fast_timeframe_weights : Timeframe → F
  swing_fast_timeframe_weights d1 = lit 17 1
  swing_fast_timeframe_weights d5 = lit 15 1
  swing_fast_timeframe_weights m1 = lit 9 1
  swing_fast_timeframe_weights ytd = lit 6 1
  swing_fast_timeframe_weights m6 = lit 5 1
  swing_fast_timeframe_weights y1 = lit 4 1
  swing_fast_timeframe_weights y5 = lit 3 1

  abbrev pub weights : Strategy → SwingPace → Timeframe → F
  weights investor pace = timeframe_weights
  weights swing fast = swing_fast_timeframe_weights
  weights swing standard = swing_timeframe_weights

  abbrev sentiment_weight : F
  sentiment_weight = lit 375 3

  -- the loop: (weighted_sum, weight_total)
  unfoldable pub weigh : (Timeframe → F) → Biases F → F → F → F × F
  weigh weight [] weighted_sum weight_total = (weighted_sum, weight_total)
  weigh weight ((tf, bias) ∷ reports) weighted_sum weight_total =
      weigh weight reports (weighted_sum ⊕ bias ⊗ weight tf) (weight_total ⊕ weight tf)

  unfoldable pub tech_score : (Timeframe → F) → Biases F → F
  unfolding weigh
  tech_score weight reports =
      let sums : F × F = weigh weight reports (lit 0 0) (lit 0 0) in
      if truthy sums.1 then sums.0 ⊘ sums.1 else lit 0 0

  unfoldable pub blend : F → Option F → F
  blend tech none = tech
  blend tech (some sentiment) = (lit 1 0 ⊖ sentiment_weight) ⊗ tech ⊕ sentiment_weight ⊗ sentiment

  unfoldable pub clamp_score : F → F
  clamp_score score = round (max (neg (lit 1 0)) (min (lit 1 0) score)) 3

  abbrev is_positive : F → Bool
  is_positive v = v >? lit 15 2

  -- a value whose sign counts as -1
  abbrev is_negative : F → Bool
  is_negative v = if is_positive v then false else v <? neg (lit 15 2)

  -- `m / n`, or 0.0 for n = 0
  abbrev share : ℕ → ℕ → F
  share m zero = lit 0 0
  share m (suc n) = lit m 0 ⊘ lit (suc n) 0

  -- the fraction of the signed values that have the majority's sign
  unfoldable pub agreement : List F → F
  agreement vs =
      let pos = length (filter is_positive vs) in
      let negs = length (filter is_negative vs) in share (larger pos negs) (pos + negs)

  abbrev abs : F → F
  abs x = if x <? lit 0 0 then neg x else x

  -- (label, direction)
  unfoldable pub lean_of : F → Label × Direction
  lean_of score =
      if score >? lit 2 1
      then (buy_lean, bull)
      else if score <? neg (lit 2 1)
      then (sell_lean, bear)
      else (hold, neutral)

  unfoldable pub verdict_for : F → Biases F → Verdict F
  unfolding lean_of agreement
  verdict_for score reports = record {
    label = (lean_of score).0;
    direction = (lean_of score).1;
    score = score;
    confidence = round (min (lit 1 0) (abs score ⊕ lit 2 1 ⊗ agreement (map (λ r. r.1) reports))) 3;
    per_timeframe = reports;
  }

  unfoldable pub build_verdict : Biases F → Option F → Strategy → SwingPace → Verdict F
  unfolding tech_score blend clamp_score verdict_for
  build_verdict [] sentiment strategy pace = record {
    label = hold;
    direction = neutral;
    score = lit 0 0;
    confidence = lit 0 0;
    per_timeframe = [];
  }
  build_verdict (r ∷ reports) sentiment strategy pace =
      let tech = tech_score (weights strategy pace) (r ∷ reports) in
      verdict_for (clamp_score (blend tech sentiment)) (r ∷ reports)
