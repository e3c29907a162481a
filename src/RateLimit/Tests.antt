-- ===== src/RateLimit/Tests.antt =====
-- The rate limiter at concrete states (stockanalyzer/data/ratelimit.py,
-- stockanalyzer/db/repositories/rate_limits.py).
use stock_graph_analyzer.Base.{◌≡◌, refl, ℕ, some, true, [], ◌∷◌, codes, text_eq, arith}
use stock_graph_analyzer.Base.Int.{ℤ, ◌+ℤ◌, ◌-ℤ◌}
use stock_graph_analyzer.Float.{lit}
use stock_graph_analyzer.Float.Fixed.{fixed_float}
use stock_graph_analyzer.RateLimit.{caps_for, count_of, new_bucket, take_token}
use stock_graph_analyzer.RateLimit.Threads.{
  Pool, IsCapped, Reach, Reach-IsCapped, Reach-together, waiting_pool,
}
use stock_graph_analyzer.RateLimit.Daily.{
  Workers, Step, first_update, insertion, next, here, no_requests, IsExact, Reach-IsExact,
  increment, remaining, count_or_zero, update_count, insert_count,
}
use stock_graph_analyzer.RateLimit.Daily

-- the ninth request of a minute waits until a token is back
bucket_waits :
    (take_token
      (lit 12 0)
      ((lit 0 0, lit 0 0) ∷ (lit 8 0, lit 8 0) ∷ [])
      (record (new_bucket {F = ℤ} 8 (lit 0 0)) { tokens = lit 5 1 })).1
    ≡ some true
unfolding take_token ◌+ℤ◌ ◌-ℤ◌
bucket_waits = refl

abbrev day_pool : ℕ → Pool
day_pool m = waiting_pool (codes "2026-07-20") (codes "twelvedata") m 0

together_run : Reach 3 (codes "twelvedata") (day_pool 799) (day_pool 802)
unfolding caps_for text_eq
together_run = Reach-together 3 800 799 (codes "2026-07-20") (codes "twelvedata") refl (omega arith)

Reach-IsCapped_example : IsCapped 3 800 (codes "twelvedata") (day_pool 802)
unfolding caps_for text_eq count_of
Reach-IsCapped_example =
    Reach-IsCapped 3 800 (codes "twelvedata") (day_pool 799) (day_pool 802) refl
      (record { threads = omega arith; bound = omega arith }) together_run

abbrev one_granted : Workers
one_granted = record { row = some 1; granted = 1; before_insert = 0; before_retry = 0 }

one_granted-Reach : Daily.Reach 800 no_requests one_granted
unfolding update_count insert_count
one_granted-Reach = next (next here (first_update refl)) (insertion 0 refl refl)

Reach-IsExact_example : IsExact 800 one_granted
Reach-IsExact_example = Reach-IsExact 800 one_granted (omega arith) one_granted-Reach
