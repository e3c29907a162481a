-- ===== src/RateLimit/Threads.antt =====
-- Several threads in `RateLimiter.acquire` (stockanalyzer/data/ratelimit.py): the check of the daily cap
-- and the counting of the request are two critical sections, with the wait for a token between.
use mathlib.Core.Path.{subst}
use stock_graph_analyzer.Base.{
  ◌≡◌, refl, sym, ap, ℕ, zero, suc, ◌+◌, ◌-◌, ◌≤◌, ◌<◌, Bool, true, false, not, Option, some, none,
  List, [], ◌∷◌, Text, text_eq, text_eq_iff, text_eq_refl, arith,
}
use stock_graph_analyzer.RateLimit.{
  Limiter, caps_for, count_of, set_count, roll_day, admit, count_request, is_reached,
}

-- `mine` and `others` count the threads between the two sections, for the provider and for others
pub record Pool : Type 0 where
  pub limiter : Limiter
  pub mine : ℕ
  pub others : ℕ

-- One step of one of n threads; a thread reads any date.
pub data Step (n : ℕ) (provider : Text) (s t : Pool) : Type 0 where
  enter :
      (today : Text)
      → s.mine + s.others < n
      → (admit today provider s.limiter).1 ≡ true
      → t ≡ record s { limiter = (admit today provider s.limiter).0; mine = suc s.mine }
      → Step n provider s t
  enter_other :
      (today other : Text)
      → s.mine + s.others < n
      → t ≡ record s { limiter = (admit today other s.limiter).0; others = suc s.others }
      → Step n provider s t
  refused :
      (today any_provider : Text)
      → t ≡ record s { limiter = (admit today any_provider s.limiter).0 }
      → Step n provider s t
  busy : (k : ℕ) → s.mine ≡ suc k → t ≡ record s { mine = k } → Step n provider s t
  busy_other : (k : ℕ) → s.others ≡ suc k → t ≡ record s { others = k } → Step n provider s t
  counted :
      (k : ℕ)
      → s.mine ≡ suc k
      → t ≡ record s { limiter = count_request provider s.limiter; mine = k }
      → Step n provider s t
  counted_other :
      (k : ℕ) (other : Text)
      → text_eq other provider ≡ false
      → s.others ≡ suc k
      → t ≡ record s { limiter = count_request other s.limiter; others = k }
      → Step n provider s t

pub data Reach (n : ℕ) (provider : Text) (s : Pool) : Pool → Type 0 where
  here : Reach n provider s s
  next : {t u : Pool} → Reach n provider s t → Step n provider t u → Reach n provider s u

abbrev pub requests : Text → Pool → ℕ
requests provider s = count_of provider s.limiter.daily

set_count_same :
    (provider : Text) (n : ℕ) (daily : List (Text × ℕ))
    → count_of provider (set_count provider n daily) ≡ n
unfolding count_of set_count
set_count_same provider n [] = ground (arith, text_eq_refl provider)
set_count_same provider n ((name, m) ∷ daily) = ground (arith, set_count_same provider n daily)

set_count_other :
    (provider other : Text) (n : ℕ) (daily : List (Text × ℕ))
    → text_eq other provider ≡ false
    → count_of provider (set_count other n daily) ≡ count_of provider daily
unfolding count_of set_count
set_count_other provider other n [] h = ground arith
set_count_other provider other n ((name, m) ∷ daily) h =
    ground (arith, set_count_other provider other n daily h, text_eq_iff name other)

-- the count after a check: as before, or reset
admit-count :
    (today any_provider provider : Text) (l : Limiter)
    → count_of provider (admit today any_provider l).0.daily ≤ count_of provider l.daily
unfolding admit roll_day count_of
admit-count today any_provider provider l = ground arith

-- what holds with at most n threads and a cap
pub record IsCapped (n cap : ℕ) (provider : Text) (s : Pool) : Type 0 where
  pub threads : s.mine + s.others ≤ n
  pub bound : requests provider s + s.mine ≤ cap + (n - 1)

not_reached :
    (limit : Option ℕ) (n cap : ℕ) → limit ≡ some cap → not (is_reached limit n) ≡ true → n < cap
not_reached none n cap e h = ground arith
not_reached (some c) n cap e h = ground arith

-- a counted request, seen by its provider and by another
count_request-same :
    (provider : Text) (l : Limiter)
    → count_of provider (count_request provider l).daily ≡ suc (count_of provider l.daily)
unfolding count_request
count_request-same provider l = set_count_same provider (suc (count_of provider l.daily)) l.daily

count_request-other :
    (provider other : Text) (l : Limiter)
    → text_eq other provider ≡ false
    → count_of provider (count_request other l).daily ≡ count_of provider l.daily
unfolding count_request
count_request-other provider other l h =
    set_count_other provider other (suc (count_of other l.daily)) l.daily h

admitted-count :
    (today provider : Text) (l : Limiter) (cap : ℕ)
    → (caps_for provider).per_day ≡ some cap
    → (admit today provider l).1 ≡ true
    → count_of provider (admit today provider l).0.daily < cap
unfolding admit
admitted-count today provider l cap e h =
    not_reached (caps_for provider).per_day (count_of provider (roll_day today l).daily) cap e h

Step-IsCapped :
    (n cap : ℕ) (provider : Text) (s t : Pool)
    → (caps_for provider).per_day ≡ some cap
    → Step n provider s t
    → IsCapped n cap provider s
    → IsCapped n cap provider t
Step-IsCapped n cap provider s t e (enter today w a q) h = rw q (record {
  threads = ground arith;
  bound = ground (arith, admitted-count today provider s.limiter cap e a);
})
Step-IsCapped n cap provider s t e (enter_other today other w q) h = rw q (record {
  threads = ground arith;
  bound = ground (arith, admit-count today other provider s.limiter);
})
Step-IsCapped n cap provider s t e (refused today other q) h = rw q (record {
  threads = ground arith;
  bound = ground (arith, admit-count today other provider s.limiter);
})
Step-IsCapped n cap provider s t e (busy k m q) h =
    rw q (record { threads = ground arith; bound = ground arith })
Step-IsCapped n cap provider s t e (busy_other k m q) h =
    rw q (record { threads = ground arith; bound = ground arith })
Step-IsCapped n cap provider s t e (counted k m q) h = rw q (record {
  threads = ground arith;
  bound = ground (arith, count_request-same provider s.limiter);
})
Step-IsCapped n cap provider s t e (counted_other k other d m q) h = rw q (record {
  threads = ground arith;
  bound = ground (arith, count_request-other provider other s.limiter d);
})

-- With n threads, whatever they do in whatever order and across midnight, at most n - 1 requests more
-- than the daily cap are counted on one day, those of the threads that wait for a token included; one
-- thread keeps the cap.
pub Reach-IsCapped :
    (n cap : ℕ) (provider : Text) (s t : Pool)
    → (caps_for provider).per_day ≡ some cap
    → IsCapped n cap provider s
    → Reach n provider s t
    → IsCapped n cap provider t
Reach-IsCapped n cap provider s t e h here = h
Reach-IsCapped n cap provider s u e h (next {t} r st) =
    Step-IsCapped n cap provider t u e st (Reach-IsCapped n cap provider s t e h r)

-- the provider's count is m, and w threads wait
abbrev pub waiting_pool : Text → Text → ℕ → ℕ → Pool
waiting_pool day provider m w = record {
  limiter = record { day = day; daily = (provider, m) ∷ [] };
  mine = w;
  others = 0;
}

Reach-trans :
    {n : ℕ} {provider : Text} {s t u : Pool}
    → Reach n provider s t
    → Reach n provider t u
    → Reach n provider s u
Reach-trans r here = r
Reach-trans r (next q st) = next (Reach-trans r q) st

admit-open :
    (day provider : Text) (m cap : ℕ)
    → (caps_for provider).per_day ≡ some cap
    → m < cap
    → admit day provider (waiting_pool day provider m 0).limiter
      ≡ ((waiting_pool day provider m 0).limiter, true)
unfolding admit roll_day count_of
admit-open day provider m cap e h = rw (e, text_eq_refl day, text_eq_refl provider) (ground arith)

enter_all :
    (n cap m w : ℕ) (day provider : Text)
    → (caps_for provider).per_day ≡ some cap
    → m < cap
    → w ≤ n
    → Reach n provider (waiting_pool day provider m 0) (waiting_pool day provider m w)
enter_all n cap m zero day provider e h k = here
enter_all n cap m (suc w) day provider e h k =
    let opened = admit-open day provider m cap e h in
    next (enter_all n cap m w day provider e h (omega arith)) (
      enter day (omega arith) (ap (λ (a : Limiter × Bool). a.1) opened) (
        ap (λ (a : Limiter × Bool). record { limiter = a.0; mine = suc w; others = 0 })
          (sym opened)))

count_request-waiting :
    (day provider : Text) (m w : ℕ)
    → count_request provider (waiting_pool day provider m w).limiter
      ≡ (waiting_pool day provider (suc m) w).limiter
unfolding count_request count_of set_count
count_request-waiting day provider m w = rw (text_eq_refl provider) refl

count_all :
    (n m w : ℕ) (day provider : Text)
    → Reach n provider (waiting_pool day provider m w) (waiting_pool day provider (m + w) 0)
count_all n m zero day provider =
    subst (λ k. Reach n provider (waiting_pool day provider m 0) (waiting_pool day provider k 0))
      (omega arith) here
count_all n m (suc w) day provider =
    let one : Reach n provider (waiting_pool day provider m (suc w))
        (waiting_pool day provider (suc m) w) =
      next here (
        counted w refl (
          ap (λ (l : Limiter). record { limiter = l; mine = w; others = 0 })
            (sym (count_request-waiting day provider m (suc w))))) in
    subst
      (λ k. Reach n provider (waiting_pool day provider m (suc w)) (waiting_pool day provider k 0))
      (suc_plus m w) (Reach-trans one (count_all n (suc m) w day provider))
  where
    suc_plus : (a b : ℕ) → suc a + b ≡ a + suc b
    suc_plus a b = omega arith

-- The run in which n threads pass the check together and are then counted, each with its token.
pub Reach-together :
    (n cap m : ℕ) (day provider : Text)
    → (caps_for provider).per_day ≡ some cap
    → m < cap
    → Reach n provider (waiting_pool day provider m 0) (waiting_pool day provider (m + n) 0)
Reach-together n cap m day provider e h =
    Reach-trans (enter_all n cap m n day provider e h (omega arith)) (count_all n m n day provider)
