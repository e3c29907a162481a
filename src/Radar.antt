-- ===== src/Radar.antt =====
-- The radar: the tickers that users watch, the notices, the bots and the worker that runs them
-- (stockanalyzer/swingwatch.py, stockanalyzer/radar_worker.py).
pub mod Watch
pub mod Levels
pub mod Notices
pub mod Cycle
mod Tests
