-- ===== src/Radar/Tests.antt =====
-- The radar's table and a cycle at concrete rows (stockanalyzer/swingwatch.py, stockanalyzer/radar_worker.py).
use stock_graph_analyzer.Base.{
  if◌then◌else◌, ◌≡◌, refl, true, false, Bool, Option, some, none, List, [], ◌∷◌, ℕ, suc, Text,
  codes, text_eq, strip, upper,
}
use stock_graph_analyzer.Base.Int.{ℤ}
use stock_graph_analyzer.Float.{lit}
use stock_graph_analyzer.Float.Fixed.{fixed_float, Fixed-IsOrdered}
use stock_graph_analyzer.Radar.Watch.{
  WatchItem, normalize, stored_level, write_level, claim_notice, claim_notice_level, notice_level,
  new_notice,
}
use stock_graph_analyzer.Radar.Levels.{IsNotice}
use stock_graph_analyzer.Radar.Notices.{
  WatchCall, level_set, claimed, apply_calls, claim_notice-IsNotice,
}
use stock_graph_analyzer.Radar.Cycle.{run_cycle, analyze_all, analyze_one, process_all, result_of}
use stock_graph_analyzer.Radar.Cycle.Log.{analyzed, processed, logged_analyze, logged_process}
use stock_graph_analyzer.Radar.Cycle.Served.{IsServed, run_cycle-IsServed}

abbrev items : List WatchItem
items =
    record { user = codes "u1"; ticker = codes "NVDA"; last_notice_level = 0 }
    ∷ record { user = codes "u2"; ticker = codes "NVDA"; last_notice_level = 60 }
    ∷ []

-- another user's claim in between
abbrev calls : List (WatchCall ℤ)
calls =
    claimed (codes "u2") (codes "nvda") (lit 90 0) ∷ level_set (codes "u2") (codes "NVDA") 70 ∷ []

claim_notice-IsNotice_example :
    IsNotice {F = ℤ}
      (lit 65 0)
      (lit 81 0)
      (claim_notice {F = ℤ}
        (codes "u1")
        (codes "nvda")
        (lit 81 0)
        (apply_calls calls (claim_notice {F = ℤ} (codes "u1") (codes "nvda") (lit 65 0) items).0)).1
unfolding text_eq strip upper normalize stored_level
claim_notice-IsNotice_example =
    claim_notice-IsNotice Fixed-IsOrdered refl refl (codes "u1") (codes "nvda") (lit 65 0)
      (lit 81 0) calls items 0 refl (refl, (refl, tt))

-- the level of 80 is reached once, and a second claim at it is silent
third_notice : (claim_notice {F = ℤ} (codes "u1") (codes "nvda") (lit 81 0) items).1 ≡ some 80
unfolding text_eq strip upper normalize stored_level claim_notice claim_notice_level write_level
    new_notice notice_level
third_notice = refl

silent_again : new_notice {F = ℤ} 80 (lit 85 0) ≡ none
unfolding new_notice notice_level
silent_again = refl

-- "BAD" raises; the world counts the calls
abbrev analyze : Text → ℕ → Option ℕ × ℕ
analyze ticker n = (if text_eq ticker (codes "BAD") then none else some n, suc n)

-- the second user's processing raises
abbrev process : Text → Text → ℕ → ℕ → Bool × ℕ
process user ticker r n = (text_eq user (codes "u1"), suc n)

abbrev assignments : List (Text × Text)
assignments =
    (codes "u1", codes "BAD")
    ∷ (codes "u1", codes "NVDA")
    ∷ (codes "u2", codes "BAD")
    ∷ (codes "u2", codes "NVDA")
    ∷ []

-- a ticker that raised is asked for again for its next owner
asks_again :
    (run_cycle (logged_analyze analyze) (logged_process process) assignments (0, [])).1.1
    ≡ analyzed (codes "BAD") false
      ∷ analyzed (codes "NVDA") true
      ∷ analyzed (codes "BAD") false
      ∷ processed (codes "u1") (codes "NVDA") true
      ∷ processed (codes "u2") (codes "NVDA") false
      ∷ []
unfolding run_cycle analyze_all analyze_one process_all result_of text_eq
asks_again = refl

run_cycle-IsServed_example :
    IsServed assignments
      (run_cycle (logged_analyze analyze) (logged_process process) assignments (0, [])).0
      (run_cycle (logged_analyze analyze) (logged_process process) assignments (0, [])).1.1
run_cycle-IsServed_example = run_cycle-IsServed analyze process assignments 0
