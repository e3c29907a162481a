-- ===== src/Verdict/Tests.antt =====
-- Verdicts of `build_verdict` (stockanalyzer/verdict/aggregate.py) at concrete biases.
use stock_graph_analyzer.Base.{◌≡◌, refl, some, [], ◌∷◌}
use stock_graph_analyzer.Base.Int.{ℤ, ◌+ℤ◌, ◌-ℤ◌}
use stock_graph_analyzer.Float.{lit, neg}
use stock_graph_analyzer.Float.Fixed.{fixed_float, round_to, Fixed-IsOrdered, Fixed-IsRounding}
use stock_graph_analyzer.Frames.{d1, y1}
use stock_graph_analyzer.Verdict.{Biases, investor, swing, standard, fast, buy_lean, build_verdict}
use stock_graph_analyzer.Verdict.Bounds.{HasUnit, IsBounded, build_verdict-IsBounded}

abbrev biases : Biases ℤ
biases = (d1, neg (lit 4 1)) ∷ (y1, lit 9 1) ∷ []

-- the long timeframe outweighs the short one
long_view : (build_verdict biases (some (lit 5 1)) investor standard).label ≡ buy_lean
unfolding build_verdict ◌+ℤ◌ ◌-ℤ◌ round_to
long_view = refl

fixed_unit : HasUnit ℤ
unfolding ◌-ℤ◌ round_to
fixed_unit = record { neg_le_zero = refl; zero_le_one = refl; round_one = refl; round_neg = refl }

build_verdict-IsBounded_example : IsBounded (build_verdict biases (some (lit 5 1)) swing fast)
build_verdict-IsBounded_example =
    build_verdict-IsBounded Fixed-IsOrdered Fixed-IsRounding fixed_unit biases (some (lit 5 1))
      swing fast
