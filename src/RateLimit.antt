-- ===== src/RateLimit.antt =====
-- The rate limiter of the data providers: stockanalyzer/data/ratelimit.py.
pub mod Threads
pub mod Daily
pub mod Tests
use stock_graph_analyzer.Base.{
  ℕ, zero, suc, ◌+◌, ◌-◌, Bool, true, false, not, ◌&&◌, Option, some, none, List, [], ◌∷◌,
  if◌then◌else◌, Text, text_eq, codes, leb,
}
use stock_graph_analyzer.Float.{Float, ◌⊕◌, ◌⊖◌, ◌⊗◌, ◌⊘◌, ◌≥?◌, lit, min}

pub record Caps : Type 0 where
  pub per_min : ℕ
  pub per_day : Option ℕ

-- `CAPS.get(provider, _DEFAULT)`
unfoldable pub caps_for : Text → Caps
caps_for provider =
    if text_eq provider (codes "twelvedata")
    then record { per_min = 8; per_day = some 800 }
    else if text_eq provider (codes "finnhub")
    then record { per_min = 60; per_day = none }
    else if text_eq provider (codes "yfinance")
    then record { per_min = 30; per_day = none }
    else record { per_min = 20; per_day = none }

pub record Bucket (F : Type 0) : Type 0 where
  pub capacity : F
  pub tokens : F
  pub refill_per_sec : F
  pub last : F

module _ {F : Type 0} ⦃f : Float F⦄ where
  -- `_Bucket(per_min)` at the monotonic time `now`
  abbrev pub new_bucket : ℕ → F → Bucket F
  new_bucket per_min now = record {
    capacity = lit per_min 0;
    tokens = lit per_min 0;
    refill_per_sec = lit per_min 0 ⊘ lit 60 0;
    last = now;
  }

  unfoldable pub refill : F → Bucket F → Bucket F
  refill now b = record b {
    tokens = min b.capacity (b.tokens ⊕ (now ⊖ b.last) ⊗ b.refill_per_sec);
    last = now;
  }

  -- one round of `take` under the bucket's lock
  unfoldable pub take_once : F → Bucket F → Bucket F × Bool
  unfolding refill
  take_once now b =
      let c : Bucket F = refill now b in
      if c.tokens ≥? lit 1 0 then (record c { tokens = c.tokens ⊖ lit 1 0 }, true) else (c, false)

  -- The loop of `take`: the readings of the clock are pairs, one under the lock and one for the
  -- deadline. Without a further reading the caller is still waiting.
  unfoldable pub take_token : F → List (F × F) → Bucket F → Bucket F × Option Bool
  unfolding take_once
  take_token deadline [] b = (b, none)
  take_token deadline ((now, later) ∷ clock) b =
      let (c, taken) = take_once now b in
      let rest = take_token deadline clock c in
      if taken then (c, some true) else if later ≥? deadline then (c, some false) else rest

-- the daily counts and their day
pub record Limiter : Type 0 where
  pub day : Text
  pub daily : List (Text × ℕ)

-- `self._daily.get(provider, 0)`
unfoldable pub count_of : Text → List (Text × ℕ) → ℕ
count_of provider [] = 0
count_of provider ((name, n) ∷ daily) = if text_eq name provider then n else count_of provider daily

-- `self._daily[provider] = n`
unfoldable pub set_count : Text → ℕ → List (Text × ℕ) → List (Text × ℕ)
set_count provider n [] = (provider, n) ∷ []
set_count provider n ((name, m) ∷ daily) =
    let rest = set_count provider n daily in
    if text_eq name provider then (name, n) ∷ daily else (name, m) ∷ rest

unfoldable pub roll_day : Text → Limiter → Limiter
roll_day today l = if text_eq today l.day then l else record { day = today; daily = [] }

abbrev pub is_reached : Option ℕ → ℕ → Bool
is_reached none n = false
is_reached (some cap) n = leb cap n

-- The first critical section of `acquire`, with no database: whether the request may go on to its
-- bucket.
unfoldable pub admit : Text → Text → Limiter → Limiter × Bool
unfolding roll_day count_of caps_for
admit today provider l =
    let rolled = roll_day today l in
    (rolled, not (is_reached (caps_for provider).per_day (count_of provider rolled.daily)))

-- The second one, after a token was taken.
unfoldable pub count_request : Text → Limiter → Limiter
unfolding count_of set_count
count_request provider l = record l {
  daily = set_count provider (suc (count_of provider l.daily)) l.daily;
}

abbrev left_of : Option ℕ → ℕ → Option ℕ
left_of none n = none
left_of (some cap) n = some (cap - n)

unfoldable pub remaining_today : Text → Text → Limiter → Limiter × Option ℕ
unfolding roll_day count_of caps_for
remaining_today today provider l =
    let rolled = roll_day today l in
    (rolled, left_of (caps_for provider).per_day (count_of provider rolled.daily))
