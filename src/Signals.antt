-- ===== src/Signals.antt =====
-- The common output of the detectors (stockanalyzer/analysis/signals.py).
use stock_graph_analyzer.Base.{Bool, List, Text}

pub data Direction : Type 0 where
  bull bear neutral : Direction

-- `TrendChange` of stockanalyzer/analysis/trend_change.py
pub record TrendChange (F : Type 0) : Type 0 where
  pub likely : Bool
  pub direction : Direction
  pub score : F
  pub reasons : List Text
