-- ===== src/RateLimit/Daily.antt =====
-- The daily counter in the database: `RateLimitRepository` of
-- stockanalyzer/db/repositories/rate_limits.py. Each SQL statement is atomic; the statements of several
-- workers interleave.
use stock_graph_analyzer.Base.{
  ◌≡◌, ◌⊎◌, refl, ℕ, suc, ◌+◌, ◌-◌, ◌≤◌, ◌<◌, Option, some, none, arith, if◌then◌else◌, ltb,
}

-- `UPDATE ... SET request_count = request_count + 1 WHERE request_count < limit RETURNING`: the row
-- of the provider and the day afterwards, and the returned count
unfoldable pub update_count : ℕ → Option ℕ → Option ℕ × Option ℕ
update_count limit none = (none, none)
update_count limit (some n) = if ltb n limit then (some (suc n), some (suc n)) else (some n, none)

-- `INSERT ... VALUES (1) ON CONFLICT DO NOTHING RETURNING`
unfoldable pub insert_count : Option ℕ → Option ℕ × Option ℕ
insert_count none = (some 1, some 1)
insert_count (some n) = (some n, none)

-- a statement runs only if none before it returned a count
abbrev pub or_then : (Option ℕ → Option ℕ × Option ℕ) → Option ℕ × Option ℕ → Option ℕ × Option ℕ
or_then statement (row, some n) = (row, some n)
or_then statement (row, none) = statement row

-- `increment` with no other worker
unfoldable pub increment : ℕ → Option ℕ → Option ℕ × Option ℕ
unfolding update_count insert_count
increment limit row = or_then (update_count limit) (or_then insert_count (update_count limit row))

-- `count or 0`
abbrev pub count_or_zero : Option ℕ → ℕ
count_or_zero none = 0
count_or_zero (some n) = n

abbrev larger : ℕ → ℕ → ℕ
larger a b = if ltb a b then b else a

-- `import_count`; an imported count is not negative here
unfoldable pub import_count : ℕ → Option ℕ → Option ℕ
import_count count none = some count
import_count count (some n) = some (larger n count)

unfoldable pub remaining : ℕ → Option ℕ → ℕ
remaining limit row = limit - count_or_zero row

-- The row, the requests granted so far, and how many workers stand before the insertion and before
-- the second update.
pub record Workers : Type 0 where
  pub row : Option ℕ
  pub granted : ℕ
  pub before_insert : ℕ
  pub before_retry : ℕ

abbrev grants : Option ℕ → ℕ
grants none = 0
grants (some _) = 1

-- One statement of one worker.
pub data Step (limit : ℕ) (s t : Workers) : Type 0 where
  first_update :
      t ≡ record s {
        row = (update_count limit s.row).0;
        granted = s.granted + grants (update_count limit s.row).1;
        before_insert = s.before_insert + (1 - grants (update_count limit s.row).1);
      }
      → Step limit s t
  insertion :
      (k : ℕ)
      → s.before_insert ≡ suc k
      → t ≡ record s {
        row = (insert_count s.row).0;
        granted = s.granted + grants (insert_count s.row).1;
        before_insert = k;
        before_retry = s.before_retry + (1 - grants (insert_count s.row).1);
      }
      → Step limit s t
  second_update :
      (k : ℕ)
      → s.before_retry ≡ suc k
      → t ≡ record s {
        row = (update_count limit s.row).0;
        granted = s.granted + grants (update_count limit s.row).1;
        before_retry = k;
      }
      → Step limit s t

pub data Reach (limit : ℕ) (s : Workers) : Workers → Type 0 where
  here : Reach limit s s
  next : {t u : Workers} → Reach limit s t → Step limit t u → Reach limit s u

abbrev pub no_requests : Workers
no_requests = record { row = none; granted = 0; before_insert = 0; before_retry = 0 }

-- Every granted request is counted, and no more are granted than the limit; who waits to retry has
-- seen the row.
pub record IsExact (limit : ℕ) (s : Workers) : Type 0 where
  pub counted : s.granted ≡ count_or_zero s.row
  pub bounded : s.granted ≤ limit

Step-IsExact :
    (limit : ℕ) (s t : Workers) → 0 < limit → Step limit s t → IsExact limit s → IsExact limit t
unfolding update_count insert_count
Step-IsExact limit s t p (first_update q) h = rw q (ground arith)
Step-IsExact limit s t p (insertion k m q) h = rw q (ground arith)
Step-IsExact limit s t p (second_update k m q) h = rw q (ground arith)

-- Under any interleaving of the statements of any number of workers, the stored count of a day is the
-- number of granted requests and never exceeds a positive limit.
pub Reach-IsExact :
    (limit : ℕ) (t : Workers) → 0 < limit → Reach limit no_requests t → IsExact limit t
Reach-IsExact limit t p here = record { counted = refl; bounded = omega arith }
Reach-IsExact limit u p (next {t} r st) = Step-IsExact limit t u p st (Reach-IsExact limit t p r)

-- A worker alone is granted a request exactly while some are left of a positive limit, and takes one.
increment-remaining :
    (limit : ℕ) (row : Option ℕ)
    → 0 < limit
    → ((increment limit row).1 ≡ none) × (remaining limit row ≡ 0) × ((increment limit row).0 ≡ row)
      ⊎ ((increment limit row).1 ≡ some (suc (count_or_zero row)))
        × (remaining limit row ≡ suc (remaining limit (increment limit row).0))
unfolding increment remaining
increment-remaining limit none p = ground arith
increment-remaining limit (some n) p = ground arith
