-- ===== src/Radar/Cycle/Log.antt =====
-- The calls of a cycle of stockanalyzer/radar_worker.py, with a log.
use stock_graph_analyzer.Base.{
  ℕ, suc, ◌+◌, ◌≡◌, refl, ap, Bool, true, false, Option, List, [], ◌∷◌, ◌++◌, if◌then◌else◌, Text,
  text_eq, is_some, arith, ◌||◌, ◌≤◌,
}
use stock_graph_analyzer.Radar.Cycle.{Running, result_of}

-- a call and whether it returned
pub data RadarCall : Type 0 where
  analyzed : Text → Bool → RadarCall
  processed : Text → Text → Bool → RadarCall

abbrev pub is_failure : RadarCall → Bool
is_failure (analyzed ticker true) = false
is_failure (analyzed ticker false) = true
is_failure (processed user ticker true) = false
is_failure (processed user ticker false) = true

-- the ticker of an analysis that returned
abbrev pub is_result : Text → RadarCall → Bool
is_result ticker (analyzed t true) = text_eq t ticker
is_result ticker _ = false

abbrev pub is_success : RadarCall → Bool
is_success (analyzed t true) = true
is_success _ = false

abbrev add_call : RadarCall → List (Text × Text) → List (Text × Text)
add_call (analyzed t ok) served = served
add_call (processed user ticker ok) served = (user, ticker) ∷ served

-- the assignments that were processed, in order
unfoldable pub served : List RadarCall → List (Text × Text)
served [] = []
served (c ∷ cs) = let rest = served cs in add_call c rest

unfoldable pub occurrences : (RadarCall → Bool) → List RadarCall → ℕ
occurrences test [] = 0
occurrences test (c ∷ cs) = let rest = occurrences test cs in if test c then suc rest else rest

pub occurrences-append :
    (test : RadarCall → Bool) (before after : List RadarCall)
    → occurrences test (before ++ after) ≡ occurrences test before + occurrences test after
unfolding occurrences
occurrences-append test [] after = omega arith
occurrences-append test (c ∷ before) after = ground (arith, occurrences-append test before after)

pub served-append :
    (before after : List RadarCall) → served (before ++ after) ≡ served before ++ served after
unfolding served
served-append [] after = refl
served-append (analyzed t ok ∷ before) after = served-append before after
served-append (processed user ticker ok ∷ before) after =
    ap (λ rest. (user, ticker) ∷ rest) (served-append before after)

abbrev pub log_processing :
    {W : Type 0} → Text → Text → List RadarCall → Bool × W → Bool × (W × List RadarCall)
log_processing user ticker log (ok, w) = (ok, (w, log ++ (processed user ticker ok ∷ [])))

abbrev pub asks : Text → RadarCall → Bool
asks ticker (analyzed t ok) = text_eq t ticker
asks ticker (processed user t ok) = false

pub result-asks :
    (t : Text) (log : List RadarCall) → occurrences (is_result t) log ≤ occurrences (asks t) log
unfolding occurrences
result-asks t [] = omega arith
result-asks t (analyzed u true ∷ cs) = ground (arith, result-asks t cs)
result-asks t (analyzed u false ∷ cs) = ground (arith, result-asks t cs)
result-asks t (processed user u ok ∷ cs) = ground (arith, result-asks t cs)

-- a cycle's locals, where the world has a log
abbrev pub LoggedRunning : Type 0 → Type 0 → Type 0
LoggedRunning R W = Running R (W × List RadarCall)

abbrev pub log_of : {R W : Type 0} → LoggedRunning R W → List RadarCall
log_of c = c.world.1

pub result_of-append :
    {R : Type 0} (t u : Text) (r : R) (rs : List (Text × R))
    → is_some (result_of t (rs ++ ((u, r) ∷ []))) ≡ (is_some (result_of t rs) || text_eq u t)
unfolding result_of
result_of-append t u r [] = ground arith
result_of-append t u r ((v, s) ∷ rs) = ground (arith, result_of-append t u r rs)

module _ {R W : Type 0} where
  abbrev pub log_analysis : Text → List RadarCall → Option R × W → Option R × (W × List RadarCall)
  log_analysis ticker log (r, w) = (r, (w, log ++ (analyzed ticker (is_some r) ∷ [])))

  -- the calls of a cycle, with a log
  abbrev pub logged_analyze :
      (Text → W → Option R × W) → Text → W × List RadarCall → Option R × (W × List RadarCall)
  logged_analyze analyze ticker (w, log) = log_analysis ticker log (analyze ticker w)

  abbrev pub logged_process :
      (Text → Text → R → W → Bool × W)
      → Text
      → Text
      → R
      → W × List RadarCall
      → Bool × (W × List RadarCall)
  logged_process process user ticker r (w, log) =
      log_processing user ticker log (process user ticker r w)
