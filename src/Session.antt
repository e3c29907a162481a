-- ===== src/Session.antt =====
-- Market sessions in Eastern Time: the wall-clock helpers of stockanalyzer/session.py and the bar
-- classifier of stockanalyzer/data/market_session.py. The conversion to Eastern Time is pandas'; an
-- instant is given after it, as a weekday (Monday is 0) and the microseconds since midnight.
pub mod Agreement
mod Tests
use stock_graph_analyzer.Base.{
  ℕ, ◌+◌, ◌*◌, ◌==◌, Bool, true, false, not, ◌&&◌, if◌then◌else◌, ltb, leb, List, map, Option, none,
  some,
}
use stock_graph_analyzer.Base.Int.{ℤ, sub_ℕ}

pub record Instant : Type 0 where
  pub weekday : ℕ
  pub time : ℕ

-- `time(h, m)`
abbrev pub clock_time : ℕ → ℕ → ℕ
clock_time h m = (h * 60 + m) * 60_000_000

abbrev pub open_time : ℕ
open_time = clock_time 9 30

abbrev pub or_end : ℕ
or_end = clock_time 9 45

abbrev pub orb_start : ℕ
orb_start = clock_time 9 45

abbrev pub orb_end : ℕ
orb_end = clock_time 11 30

abbrev pub pre_start : ℕ
pre_start = clock_time 4 0

abbrev pub reg_end : ℕ
reg_end = clock_time 16 0

abbrev pub fri_flat : ℕ
fri_flat = clock_time 15 45

abbrev pub post_end : ℕ
post_end = clock_time 20 0

-- `lo <= t < hi`
abbrev pub within : ℕ → ℕ → ℕ → Bool
within lo hi t = leb lo t && ltb t hi

unfoldable pub is_weekday : Instant → Bool
is_weekday ts = ltb ts.weekday 5

pub data Phase : Type 0 where
  premarket opening_range regular closed : Phase

unfoldable pub market_phase : Instant → Phase
unfolding is_weekday
market_phase ts =
    if not (is_weekday ts)
    then closed
    else if within pre_start open_time ts.time
    then premarket
    else if within open_time or_end ts.time
    then opening_range
    else if within or_end reg_end ts.time
    then regular
    else closed

-- microseconds since 9:30; the source divides by 60 million to give minutes
unfoldable pub since_open : Instant → ℤ
since_open ts = sub_ℕ ts.time open_time

unfoldable pub is_orb_window : Instant → Bool
unfolding is_weekday
is_orb_window ts = is_weekday ts && (leb orb_start ts.time && leb ts.time orb_end)

unfoldable pub is_friday_flat : Instant → Bool
is_friday_flat ts = (ts.weekday == 4) && within fri_flat reg_end ts.time

-- `Session` of stockanalyzer/data/market_session.py
pub data Session : Type 0 where
  pre reg post shut : Session

unfoldable pub is_extended : Session → Bool
is_extended pre = true
is_extended post = true
is_extended _ = false

unfoldable pub classify : Instant → Session
classify ts =
    if within pre_start open_time ts.time
    then pre
    else if within open_time reg_end ts.time
    then reg
    else if within reg_end post_end ts.time
    then post
    else shut

unfoldable pub sessions_for_index : List Instant → List Session
unfolding classify
sessions_for_index = map classify
