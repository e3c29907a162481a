-- ===== src/Orb/Tests.antt =====
-- A Gap-and-Go morning (stockanalyzer/analysis/orb.py).
use stock_graph_analyzer.Base.{◌≡◌, refl, true, false, some, none, [], ◌∷◌, is_some, ℕ, ◌*◌}
use stock_graph_analyzer.Base.Int.{ℤ, ◌+ℤ◌, ◌-ℤ◌}
use stock_graph_analyzer.Float.{lit}
use stock_graph_analyzer.Float.Fixed.{fixed_float, round_to, floor_to}
use stock_graph_analyzer.Session.{Instant, market_phase, is_orb_window, is_weekday}
use stock_graph_analyzer.Signals.{bull}
use stock_graph_analyzer.Swing.{SwingBar, SwingReport, Stats}
use stock_graph_analyzer.Swing.Volatility.{relative_volume}
use stock_graph_analyzer.Orb.{opening_range, session_bars, gap_and_go_signal}

abbrev stats : Stats ℤ
stats = record { sqrt = λ x. x; median = λ xs. lit 2 2; mean = λ xs. lit 1000 0 }

-- a bar of the opening range, one minute each
abbrev bar : ℕ → ℤ → ℤ → SwingBar ℤ
bar minute low high = record {
  day = 1;
  minute = minute;
  et_minute = minute;
  ema8 = none;
  opening = low;
  high = high;
  low = low;
  close = high;
  volume = lit 1000 0;
  atr = none;
  rsi = none;
  sma20 = none;
  sma50 = none;
  sma200 = none;
  ema20 = none;
  macd = none;
  macd_signal = none;
  macd_hist = none;
  adx = none;
  plus_di = none;
  minus_di = none;
  bb_upper = none;
  bb_lower = none;
}

abbrev morning : SwingReport ℤ
morning = record {
  levels = [];
  signals = [];
  bias_score = lit 2 1;
  trend = bull;
  dated = true;
  has_ema8 = false;
  has_atr = false;
  trend_change = record { likely = false; direction = bull; score = lit 0 0; reasons = [] };
  last_close = some (lit 104 0);
  bars =
      bar 570 (lit 103 0) (lit 105 0)
      ∷ bar 584 (lit 104 0) (lit 106 0)
      ∷ bar 590 (lit 105 0) (lit 107 0)
      ∷ [];
}

-- Wednesday, 9:50
abbrev asof : Instant
asof = record { weekday = 2; time = 590 * 60_000_000 }

fires_after_range :
    is_some
      (gap_and_go_signal stats
        (opening_range (some morning) (some (lit 100 0)) asof)
        (some morning)
        (some (lit 107 0))
        asof).fired
    ≡ true
unfolding gap_and_go_signal opening_range session_bars market_phase is_orb_window is_weekday
    relative_volume round_to floor_to ◌+ℤ◌ ◌-ℤ◌
fires_after_range = refl
