-- ===== src/Session/Agreement.antt =====
-- The two session modules (stockanalyzer/session.py, stockanalyzer/data/market_session.py) agree, and
-- the entry window and the Friday cut-off lie where the phases say.
use stock_graph_analyzer.Base.{false, ◌≡◌, ◌⊎◌, ◌↔◌, true, false, arith, ◌<◌}
use stock_graph_analyzer.Session.{
  Instant, premarket, opening_range, regular, market_phase, is_orb_window, is_friday_flat, pre, reg,
  classify,
}

weekday-phase_pre :
    (ts : Instant) → ts.weekday < 5 → (market_phase ts ≡ premarket) ↔ (classify ts ≡ pre)
unfolding market_phase classify
weekday-phase_pre ts h = ground arith

weekday-phase_reg :
    (ts : Instant)
    → ts.weekday < 5
    → ((market_phase ts ≡ opening_range) ⊎ (market_phase ts ≡ regular)) ↔ (classify ts ≡ reg)
unfolding market_phase classify
weekday-phase_reg ts h = ground arith

-- On a weekday the wall-clock phase is premarket exactly when the bar classifier says pre-market, and
-- opening range or regular exactly when it says regular.
pub market_phase-classify :
    (ts : Instant)
    → ts.weekday < 5
    → ((market_phase ts ≡ premarket) ↔ (classify ts ≡ pre))
      × (((market_phase ts ≡ opening_range) ⊎ (market_phase ts ≡ regular)) ↔ (classify ts ≡ reg))
market_phase-classify ts h = (weekday-phase_pre ts h, weekday-phase_reg ts h)

-- An instant of the Gap-and-Go entry window is in the regular phase, so no entry falls into the opening
-- range, and is before the Friday cut-off.
pub orb_window_regular :
    (ts : Instant)
    → is_orb_window ts ≡ true
    → (market_phase ts ≡ regular) × (is_friday_flat ts ≡ false)
unfolding is_orb_window market_phase is_friday_flat
orb_window_regular ts h = (ground arith, ground arith)

-- An instant of the Friday cut-off is in the regular phase, its bar is a regular one, and the entry
-- window is over.
friday_flat_regular :
    (ts : Instant)
    → is_friday_flat ts ≡ true
    → (market_phase ts ≡ regular) × (classify ts ≡ reg) × (is_orb_window ts ≡ false)
unfolding is_orb_window market_phase is_friday_flat classify
friday_flat_regular ts h = (ground arith, ground arith, ground arith)
