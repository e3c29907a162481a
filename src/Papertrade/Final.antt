-- ===== src/Papertrade/Final.antt =====
-- When `judge_outcome` (stockanalyzer/papertrade.py) has reached a final verdict.
use mathlib.Core.Path.{subst}
use stock_graph_analyzer.Base.{
  ◌≡◌, ◌≢◌, ◌⊎◌, inl, inr, refl, Option, some, none, List, [], ◌∷◌, ◌++◌, ℕ, suc, ◌+◌, ◌*◌, ◌≤◌,
  ◌<◌, arith, true, false, Bool-cases, length, All, ap, leb,
}
use stock_graph_analyzer.Float.{Float, ◌≤?◌, ◌≥?◌}
use stock_graph_analyzer.Papertrade.{
  still_open, target_hit, stop_hit, expired, DailyBar, Judged, Proposition, judge_active,
  judge_waiting, judge_from, judge_outcome, percent,
}

suc_add : (m n : ℕ) → suc (suc m + n) ≡ suc (m + suc n)
suc_add m n = omega arith

time_left :
    (days n horizon : ℕ)
    → suc days < horizon
    → (n ≡ 0) ⊎ (suc days + n < horizon)
    → days + suc n < horizon
time_left days n horizon h (inl e) = omega arith
time_left days n horizon h (inr k) = omega arith

module _ {F : Type 0} ⦃f : Float F⦄ where
  judge_active-more :
      (p : Proposition F) (entry : F) (days : ℕ) (last : F) (bars more : List (DailyBar F))
      → (judge_active p entry days last bars).status ≢ still_open
      → judge_active p entry days last (bars ++ more) ≡ judge_active p entry days last bars
  unfolding judge_active
  judge_active-more p entry days last [] more h = absurd (h refl)
  judge_active-more p entry days last (b ∷ bars) more h =
      ground (arith, judge_active-more p entry (suc days) b.close bars more)

  judge_waiting-more :
      (p : Proposition F) (trigger : F) (waited : ℕ) (bars more : List (DailyBar F))
      → (judge_waiting p trigger waited bars).status ≢ still_open
      → judge_waiting p trigger waited (bars ++ more) ≡ judge_waiting p trigger waited bars
  unfolding judge_waiting
  judge_waiting-more p trigger waited [] more h = absurd (h refl)
  judge_waiting-more p trigger waited (b ∷ bars) more h = ground (
    arith,
    judge_waiting-more p trigger (suc waited) bars more,
    judge_active-more p b.close 1 b.close bars more,
  )

  judge_from-more :
      (p : Proposition F) (trigger : Option F) (b : DailyBar F) (bars more : List (DailyBar F))
      → (judge_from p trigger b bars).status ≢ still_open
      → judge_from p trigger b (bars ++ more) ≡ judge_from p trigger b bars
  unfolding judge_from
  judge_from-more p none b bars more h = judge_active-more p p.entry 0 b.close (b ∷ bars) more h
  judge_from-more p (some t) b bars more h = judge_waiting-more p t 0 (b ∷ bars) more h

  -- A verdict other than open, with its result, stays as it is whatever bars come later.
  pub judge_outcome_stable :
      (p : Proposition F) (bars more : List (DailyBar F))
      → (judge_outcome bars p).status ≢ still_open
      → judge_outcome (bars ++ more) p ≡ judge_outcome bars p
  unfolding judge_outcome
  judge_outcome_stable p [] more h = absurd (h refl)
  judge_outcome_stable p (b ∷ bars) more h = judge_from-more p p.trigger b bars more h

  judge_active_enough :
      (p : Proposition F) (entry : F) (days : ℕ) (last : F) (bars : List (DailyBar F))
      → 0 < length bars
      → p.horizon_days ≤ days + length bars
      → (judge_active p entry days last bars).status ≢ still_open
  unfolding judge_active
  judge_active_enough p entry days last [] h k = ground arith
  judge_active_enough p entry days last (b ∷ []) h k = ground arith
  judge_active_enough p entry days last (b ∷ c ∷ bars) h k =
      ground (arith, judge_active_enough p entry (suc days) b.close (c ∷ bars))

  judge_waiting_enough :
      (p : Proposition F) (trigger : F) (waited : ℕ) (bars : List (DailyBar F))
      → waited < p.horizon_days
      → p.horizon_days * 2 ≤ waited + length bars
      → (judge_waiting p trigger waited bars).status ≢ still_open
  unfolding judge_waiting
  judge_waiting_enough p trigger waited [] h k = ground arith
  judge_waiting_enough p trigger waited (b ∷ bars) h k = ground (
    arith,
    judge_waiting_enough p trigger (suc waited) bars,
    judge_active_enough p b.close 1 b.close bars,
  )

  judge_from_enough :
      (p : Proposition F) (trigger : Option F) (b : DailyBar F) (bars : List (DailyBar F))
      → 0 < p.horizon_days
      → p.horizon_days * 2 ≤ suc (length bars)
      → (judge_from p trigger b bars).status ≢ still_open
  unfolding judge_from
  judge_from_enough p none b bars h k =
      judge_active_enough p p.entry 0 b.close (b ∷ bars) (omega arith) (omega arith)
  judge_from_enough p (some t) b bars h k = judge_waiting_enough p t 0 (b ∷ bars) h (omega arith)

  -- With a horizon of at least one day, twice as many bars as its days are enough for a verdict other
  -- than open, whether the trade waits for a trigger or not.
  pub judge_outcome_enough :
      (p : Proposition F) (bars : List (DailyBar F))
      → 0 < p.horizon_days
      → p.horizon_days * 2 ≤ length bars
      → (judge_outcome bars p).status ≢ still_open
  unfolding judge_outcome
  judge_outcome_enough p [] h k = ground arith
  judge_outcome_enough p (b ∷ bars) h k = judge_from_enough p p.trigger b bars h k

  -- the bar touches neither the stop nor the target
  abbrev pub IsQuiet : Proposition F → DailyBar F → Type 0
  IsQuiet p b = ((b.low ≤? p.stop) ≡ false) × ((b.high ≥? p.target) ≡ false)

  -- what the bar of the given active day decides
  pub data Decides (p : Proposition F) (entry : F) (day : ℕ) (b : DailyBar F) (j : Judged F)
      : Type 0 where
    by_stop :
        (b.low ≤? p.stop) ≡ true
        → j ≡ record { status = stop_hit; result_pct = percent p.stop entry }
        → Decides p entry day b j
    by_target :
        (b.low ≤? p.stop) ≡ false
        → (b.high ≥? p.target) ≡ true
        → j ≡ record { status = target_hit; result_pct = percent p.target entry }
        → Decides p entry day b j
    by_time :
        IsQuiet p b
        → p.horizon_days ≤ day
        → j ≡ record { status = expired; result_pct = percent b.close entry }
        → Decides p entry day b j

  -- The first bar that is not quiet decides, or the one of the last active day: before it the days are
  -- not over, where there is a bar before it.
  pub data DecidedBy (p : Proposition F) (entry : F) (days : ℕ) (bars : List (DailyBar F))
      (j : Judged F) : Type 0 where
    nothing_yet :
        All (IsQuiet p) bars
        → (bars ≡ []) ⊎ (days + length bars < p.horizon_days)
        → j.status ≡ still_open
        → DecidedBy p entry days bars j
    at_bar :
        (before : List (DailyBar F)) (b : DailyBar F) (later : List (DailyBar F))
        → bars ≡ before ++ (b ∷ later)
        → All (IsQuiet p) before
        → (before ≡ []) ⊎ (days + length before < p.horizon_days)
        → Decides p entry (suc (days + length before)) b j
        → DecidedBy p entry days bars j

  no_length :
      (days horizon : ℕ) (bars : List (DailyBar F))
      → (bars ≡ []) ⊎ (suc days + length bars < horizon)
      → (length bars ≡ 0) ⊎ (suc days + length bars < horizon)
  no_length days horizon bars (inl e) = inl (ap length e)
  no_length days horizon bars (inr k) = inr k

  DecidedBy-cons :
      (p : Proposition F) (entry : F) (days : ℕ) (b : DailyBar F) (bars : List (DailyBar F))
      (j : Judged F)
      → IsQuiet p b
      → suc days < p.horizon_days
      → DecidedBy p entry (suc days) bars j
      → DecidedBy p entry days (b ∷ bars) j
  DecidedBy-cons p entry days b bars j q h (nothing_yet qs k s) =
      nothing_yet (q, qs)
        (inr (time_left days (length bars) p.horizon_days h (no_length days p.horizon_days bars k)))
        s
  DecidedBy-cons p entry days b bars j q h (at_bar before c later e qs k d) =
      at_bar (b ∷ before) c later (ap (λ t. b ∷ t) e) (q, qs)
        (inr (
          time_left days (length before) p.horizon_days h (no_length days p.horizon_days before k)))
        (subst (λ n. Decides p entry n c j) (suc_add days (length before)) d)

  judge_active-DecidedBy :
      (p : Proposition F) (entry : F) (days : ℕ) (last : F) (bars : List (DailyBar F))
      → DecidedBy p entry days bars (judge_active p entry days last bars)
  unfolding judge_active
  judge_active-DecidedBy p entry days last [] = nothing_yet tt (inl refl) refl
  judge_active-DecidedBy p entry days last (b ∷ bars) = elim (Bool-cases (b.low ≤? p.stop)) [
    | inl s ↦ at_bar [] b bars refl tt (inl refl) (by_stop s (rw s))
    | inr s ↦ elim (Bool-cases (b.high ≥? p.target)) [
      | inl t ↦ at_bar [] b bars refl tt (inl refl) (by_target s t (rw (s, t)))
      | inr t ↦ elim (Bool-cases (leb p.horizon_days (suc days))) [
        | inl x ↦ at_bar [] b bars refl tt (inl refl) (by_time (s, t) (ground arith) (rw (s, t, x)))
        | inr x ↦
            rw (s, t, x)
              (DecidedBy-cons p entry days b bars (judge_active p entry (suc days) b.close bars)
                (s, t) (ground arith) (judge_active-DecidedBy p entry (suc days) b.close bars))
      ]
    ]
  ]

  judge_from-DecidedBy :
      (p : Proposition F) (t : Option F) (b : DailyBar F) (bars : List (DailyBar F))
      → t ≡ none
      → DecidedBy p p.entry 0 (b ∷ bars) (judge_from p t b bars)
  unfolding judge_from
  judge_from-DecidedBy p none b bars e = judge_active-DecidedBy p p.entry 0 b.close (b ∷ bars)
  judge_from-DecidedBy p (some t) b bars e = ground arith

  -- A proposition without a trigger is open while no bar touches its stop or its target and the bars
  -- are fewer than its days. The first bar that touches one of them decides it, the stop before the
  -- target, if it comes by the last of its days; or else the bar of that day does, at its close. Where it
  -- has no days, the first bar is the last.
  pub judge_outcome-DecidedBy :
      (p : Proposition F) (bars : List (DailyBar F))
      → p.trigger ≡ none
      → DecidedBy p p.entry 0 bars (judge_outcome bars p)
  unfolding judge_outcome
  judge_outcome-DecidedBy p [] e = nothing_yet tt (inl refl) refl
  judge_outcome-DecidedBy p (b ∷ bars) e = judge_from-DecidedBy p p.trigger b bars e
