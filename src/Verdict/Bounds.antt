-- ===== src/Verdict/Bounds.antt =====
-- The range of `build_verdict` (stockanalyzer/verdict/aggregate.py).
use mathlib.Core.Path.{subst}
use stock_graph_analyzer.Base.{◌≡◌, refl, inl, inr, Option, [], ◌∷◌, true, arith, Bool-cases}
use stock_graph_analyzer.Float.{
  Float, ◌≤?◌, ◌<?◌, ◌>?◌, lit, neg, round, max, min, IsOrdered, IsRounding,
}
use stock_graph_analyzer.Signals.{bull, bear, neutral}
use stock_graph_analyzer.Verdict.{
  Verdict, Biases, Strategy, SwingPace, buy_lean, sell_lean, hold, clamp_score, lean_of,
  verdict_for, build_verdict, weights, tech_score, blend,
}

-- What is relied on of the numbers -1, 0 and 1.
pub record HasUnit (F : Type 0) ⦃f : Float F⦄ : Type 0 where
  pub neg_le_zero : f.le (f.neg (f.lit 1 0)) (f.lit 0 0) ≡ true
  pub zero_le_one : f.le (f.lit 0 0) (f.lit 1 0) ≡ true
  pub round_one : f.round (f.lit 1 0) 3 ≡ f.lit 1 0
  pub round_neg : f.round (f.neg (f.lit 1 0)) 3 ≡ f.neg (f.lit 1 0)

module _ {F : Type 0} ⦃f : Float F⦄ where
  -- label and direction say the same, and fit the score
  pub data Lean (v : Verdict F) : Type 0 where
    buying : v.label ≡ buy_lean → v.direction ≡ bull → (v.score >? lit 2 1) ≡ true → Lean v
    selling : v.label ≡ sell_lean → v.direction ≡ bear → (v.score <? neg (lit 2 1)) ≡ true → Lean v
    holding : v.label ≡ hold → v.direction ≡ neutral → Lean v

  pub record IsBounded (v : Verdict F) : Type 0 where
    pub low : (neg (lit 1 0) ≤? v.score) ≡ true
    pub high : (v.score ≤? lit 1 0) ≡ true
    pub sure : (v.confidence ≤? lit 1 0) ≡ true
    pub lean : Lean v

  verdict_for-Lean : (score : F) (reports : Biases F) → Lean (verdict_for score reports)
  unfolding verdict_for lean_of
  verdict_for-Lean score reports = elim (Bool-cases (score >? lit 2 1)) [
    | inl b ↦ buying (rw b refl) (rw b refl) b
    | inr b ↦ elim (Bool-cases (score <? neg (lit 2 1))) [
      | inl s ↦ selling (rw (b, s) refl) (rw (b, s) refl) s
      | inr s ↦ holding (rw (b, s) refl) (rw (b, s) refl)
    ]
  ]

  module _ (order : IsOrdered F) (rounding : IsRounding F) (unit : HasUnit F) where
    lt-le : (x y : F) → (x <? y) ≡ true → (x ≤? y) ≡ true
    lt-le x y h = ground (arith, order.lt_not_le x y, order.le_total x y)

    min-le : (x y : F) → (min x y ≤? x) ≡ true
    min-le x y = elim (Bool-cases (y <? x)) [
      | inl e ↦ rw e (lt-le y x e)
      | inr e ↦ rw e (order.le_refl x)
    ]

    le-max : (x y : F) → (x ≤? max x y) ≡ true
    le-max x y = elim (Bool-cases (x <? y)) [
      | inl e ↦ rw e (lt-le x y e)
      | inr e ↦ rw e (order.le_refl x)
    ]

    max-le : (x y z : F) → (x ≤? z) ≡ true → (y ≤? z) ≡ true → (max x y ≤? z) ≡ true
    max-le x y z h k = ground arith

    clamp_score-high : (x : F) → (clamp_score x ≤? lit 1 0) ≡ true
    unfolding clamp_score
    clamp_score-high x =
        subst (λ one. (round (max (neg (lit 1 0)) (min (lit 1 0) x)) 3 ≤? one) ≡ true)
          unit.round_one
          (rounding.round_mono (max (neg (lit 1 0)) (min (lit 1 0) x)) (lit 1 0) 3 (
            max-le (neg (lit 1 0)) (min (lit 1 0) x) (lit 1 0)
              (order.le_trans (neg (lit 1 0)) (lit 0 0) (lit 1 0) unit.neg_le_zero unit.zero_le_one)
              (min-le (lit 1 0) x)))

    clamp_score-low : (x : F) → (neg (lit 1 0) ≤? clamp_score x) ≡ true
    unfolding clamp_score
    clamp_score-low x =
        subst (λ one. (one ≤? round (max (neg (lit 1 0)) (min (lit 1 0) x)) 3) ≡ true)
          unit.round_neg
          (rounding.round_mono (neg (lit 1 0)) (max (neg (lit 1 0)) (min (lit 1 0) x)) 3
            (le-max (neg (lit 1 0)) (min (lit 1 0) x)))

    round_min-high : (x : F) → (round (min (lit 1 0) x) 3 ≤? lit 1 0) ≡ true
    round_min-high x =
        subst (λ one. (round (min (lit 1 0) x) 3 ≤? one) ≡ true) unit.round_one
          (rounding.round_mono (min (lit 1 0) x) (lit 1 0) 3 (min-le (lit 1 0) x))

    verdict_for-sure :
        (score : F) (reports : Biases F)
        → ((verdict_for score reports).confidence ≤? lit 1 0) ≡ true
    unfolding verdict_for
    verdict_for-sure score reports = round_min-high _

    bounded : (x : F) (reports : Biases F) → IsBounded (verdict_for (clamp_score x) reports)
    unfolding verdict_for
    bounded x reports = record {
      low = clamp_score-low x;
      high = clamp_score-high x;
      sure = verdict_for-sure (clamp_score x) reports;
      lean = verdict_for-Lean (clamp_score x) reports;
    }

    -- Where floats are ordered and rounding keeps 1 and -1, a verdict's score is between -1 and 1 and its
    -- confidence at most 1, whatever the biases, the sentiment and the strategy. Label and direction
    -- agree: a buy is bullish with a score above 0.2, a sell bearish with one below -0.2, and a hold is
    -- neutral.
    pub build_verdict-IsBounded :
        (reports : Biases F) (sentiment : Option F) (strategy : Strategy) (pace : SwingPace)
        → IsBounded (build_verdict reports sentiment strategy pace)
    unfolding build_verdict
    build_verdict-IsBounded [] sentiment strategy pace = record {
      low = unit.neg_le_zero;
      high = unit.zero_le_one;
      sure = unit.zero_le_one;
      lean = holding refl refl;
    }
    build_verdict-IsBounded (r ∷ reports) sentiment strategy pace =
        let x = blend (tech_score (weights strategy pace) (r ∷ reports)) sentiment in
        bounded x (r ∷ reports)
