-- ===== src/Session/Tests.antt =====
-- The session theorems (stockanalyzer/session.py) at concrete instants.
use stock_graph_analyzer.Base.{◌≡◌, ◌⊎◌, ◌↔◌, arith}
use stock_graph_analyzer.Session.{
  Instant, opening_range, regular, premarket, market_phase, pre, reg, classify, clock_time,
}
use stock_graph_analyzer.Session.Agreement.{market_phase-classify}

abbrev friday_ten : Instant
friday_ten = record { weekday = 4; time = clock_time 10 0 }

market_phase-classify_example :
    ((market_phase friday_ten ≡ premarket) ↔ (classify friday_ten ≡ pre))
    × (((market_phase friday_ten ≡ opening_range) ⊎ (market_phase friday_ten ≡ regular))
        ↔ (classify friday_ten ≡ reg))
market_phase-classify_example = market_phase-classify friday_ten (omega arith)
