-- ===== src/Manage/Tests.antt =====
-- The assessment (stockanalyzer/manage.py) at a concrete position.
use stock_graph_analyzer.Base.{◌≡◌, refl, true, false, some, none, [], ◌∷◌, map}
use stock_graph_analyzer.Base.Int.{ℤ, ◌+ℤ◌, ◌-ℤ◌}
use stock_graph_analyzer.Float.{lit}
use stock_graph_analyzer.Float.Fixed.{fixed_float, round_to}
use stock_graph_analyzer.Frames.{d1, intraday_frame}
use stock_graph_analyzer.Manage.{
  Position, Picture, ManageAction, trend_test_tighten, trail_stop, assess_position, test_actions,
  trail_actions, is_testing, test_stop, trail_level,
}
use stock_graph_analyzer.Manage.Stops.{IsAssessment, assess_position-IsAssessment}

abbrev position : Position ℤ
position = record { entry = lit 100 0; stop = lit 95 0; init_stop = some (lit 95 0) }

abbrev calm : Picture ℤ
calm = record {
  reports =
      (
        d1,
        record {
          bars =
              record {
                day = 1;
                minute = 600;
                close = lit 109 0;
                ema8 = some (lit 108 0);
                atr = some (lit 1 0);
              }
              ∷ record {
                day = 1;
                minute = 605;
                close = lit 107 0;
                ema8 = some (lit 108 0);
                atr = some (lit 1 0);
              }
              ∷ [];
          dated = true;
          has_ema8 = true;
          has_atr = true;
        },
      )
      ∷ [];
  trend_change = none;
  ema8_5m = some (lit 108 0);
  intraday_close = some (lit 107 0);
  is_friday_flat = false;
  hold_weekend = false;
}

-- a close below EMA8 at 1.6R: the stop is tested and trailed
two_actions :
    map (λ (a : ManageAction ℤ). a.kind) (assess_position position (lit 108 0) calm)
    ≡ trend_test_tighten ∷ trail_stop ∷ []
unfolding assess_position test_actions trail_actions is_testing test_stop trail_level intraday_frame
    round_to ◌+ℤ◌ ◌-ℤ◌
two_actions = refl

assess_position-IsAssessment_example :
    IsAssessment position (lit 108 0) calm (assess_position position (lit 108 0) calm)
assess_position-IsAssessment_example = assess_position-IsAssessment position (lit 108 0) calm
