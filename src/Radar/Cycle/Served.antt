-- ===== src/Radar/Cycle/Served.antt =====
-- What a cycle of stockanalyzer/radar_worker.py calls, in which order, and what it counts.
use mathlib.Core.Path.{subst}
use mathlib.Core.List.{append-nil, append_assoc}
use stock_graph_analyzer.Base.{
  ℕ, ◌≡◌, refl, sym, ap, ◌∙◌, Bool, true, false, Option, List, [], ◌∷◌, ◌++◌, if◌then◌else◌, length,
  Text, is_some, arith, Option-cases, inl, inr, filter, ◌≤◌, All, leb,
}
use stock_graph_analyzer.Radar.Cycle.{CycleReport, result_of, note, process_all, run_cycle, started}
use stock_graph_analyzer.Radar.Cycle.Log.{
  RadarCall, processed, is_failure, is_result, is_success, served, occurrences, occurrences-append,
  served-append, log_processing, logged_analyze, logged_process, LoggedRunning, log_of, asks,
}
use stock_graph_analyzer.Radar.Cycle.Analyses.{
  IsMore, IsCounted, after_all, analyze_all-IsCounted, every_ticker_asked,
}

-- the assignments whose ticker has a result
abbrev with_result : {R : Type 0} → List (Text × R) → List (Text × Text) → List (Text × Text)
with_result results assignments =
    filter (λ (a : Text × Text). is_some (result_of a.1 results)) assignments

module _ {R W : Type 0} where
  abbrev noted : Text → Text → LoggedRunning R W → Bool × W → LoggedRunning R W
  noted user ticker c out = note c (log_processing user ticker (log_of c) out)

  noted-IsCounted :
      (user ticker : Text) (done : List (Text × Text)) (c : LoggedRunning R W) (out : Bool × W)
      → IsCounted done c
      → IsCounted (done ++ ((user, ticker) ∷ [])) (noted user ticker c out)
  unfolding occurrences served
  noted-IsCounted user ticker done c (true, w) a =
      let call : List RadarCall = processed user ticker true ∷ [] in
      record {
        known = λ t. omega (arith, a.known t, occurrences-append (is_result t) (log_of c) call);
        failed = omega (arith, a.failed, occurrences-append is_failure (log_of c) call);
        size = omega (arith, a.size, occurrences-append is_success (log_of c) call);
        calls = served-append (log_of c) call ∙ ap (λ s. s ++ ((user, ticker) ∷ [])) a.calls;
      }
  noted-IsCounted user ticker done c (false, w) a =
      let call : List RadarCall = processed user ticker false ∷ [] in
      record {
        known = λ t. omega (arith, a.known t, occurrences-append (is_result t) (log_of c) call);
        failed = omega (arith, a.failed, occurrences-append is_failure (log_of c) call);
        size = omega (arith, a.size, occurrences-append is_success (log_of c) call);
        calls = served-append (log_of c) call ∙ ap (λ s. s ++ ((user, ticker) ∷ [])) a.calls;
      }

  noted-IsMore :
      (user ticker : Text) (c : LoggedRunning R W) (out : Bool × W)
      → IsMore c (noted user ticker c out)
  noted-IsMore user ticker c (true, w) test =
      omega (arith, occurrences-append test (log_of c) (processed user ticker true ∷ []))
  noted-IsMore user ticker c (false, w) test =
      omega (arith, occurrences-append test (log_of c) (processed user ticker false ∷ []))

  noted_results :
      (user ticker : Text) (c : LoggedRunning R W) (out : Bool × W)
      → (noted user ticker c out).results ≡ c.results
  noted_results user ticker c (true, w) = refl
  noted_results user ticker c (false, w) = refl

  -- where a list of assignments was processed
  record IsProcessed (done : List (Text × Text)) (c d : LoggedRunning R W) : Type 0 where
    results : d.results ≡ c.results
    counted : IsCounted done d
    more : IsMore c d

  module _ (process : Text → Text → R → W → Bool × W) where
    abbrev served_all : List (Text × Text) → LoggedRunning R W → LoggedRunning R W
    served_all assignments c = process_all (logged_process process) assignments c

    process_all-IsProcessed :
        (assignments done : List (Text × Text)) (c : LoggedRunning R W)
        → IsCounted done c
        → IsProcessed (done ++ with_result c.results assignments) c (served_all assignments c)
    unfolding process_all
    process_all-IsProcessed [] done c a = record {
      results = refl;
      counted = subst (λ s. IsCounted s c) (sym (append-nil done)) a;
      more = λ test. omega arith;
    }
    process_all-IsProcessed ((user, ticker) ∷ rest) done c a =
        elim (Option-cases (result_of ticker c.results)) [
          | inl e ↦ rw e (process_all-IsProcessed rest done c a)
          | inr (r, e) ↦
              let d : LoggedRunning R W = noted user ticker c (process user ticker r c.world.0) in
              let same : d.results ≡ c.results =
                noted_results user ticker c (process user ticker r c.world.0) in
              let more : IsMore c d =
                noted-IsMore user ticker c (process user ticker r c.world.0) in
              let next =
                process_all-IsProcessed rest (done ++ ((user, ticker) ∷ [])) d
                  (noted-IsCounted user ticker done c (process user ticker r c.world.0) a) in
              let joined : (done ++ ((user, ticker) ∷ [])) ++ with_result d.results rest
                  ≡ done ++ ((user, ticker) ∷ with_result c.results rest) =
                append_assoc done ((user, ticker) ∷ []) (with_result d.results rest)
                ∙ ap (λ rs. done ++ ((user, ticker) ∷ with_result rs rest)) same in
              rw e record {
                results = next.results ∙ same;
                counted = subst (λ s. IsCounted s (served_all rest d)) joined next.counted;
                more = λ test. omega (arith, more test, next.more test);
              }
        ]

-- what a cycle calls and reports
pub record IsServed (assignments : List (Text × Text)) (report : CycleReport) (log : List RadarCall)
    : Type 0 where
  -- a ticker has one result at most, and is asked for
  pub once : (t : Text) → occurrences (is_result t) log ≤ 1
  pub asked : All (λ (a : Text × Text). 1 ≤ occurrences (asks a.1) log) assignments
  -- the assignments with a result are processed
  pub processed :
      served log ≡ filter (λ (a : Text × Text). leb 1 (occurrences (is_result a.1) log)) assignments
  pub listed : report.assignments ≡ length assignments
  pub analyzed : report.tickers_analyzed ≡ occurrences is_success log
  pub failed : report.failures ≡ occurrences is_failure log

filter_cong :
    {A : Type 0} (p q : A → Bool)
    → ((x : A) → p x ≡ q x)
    → (xs : List A) → filter p xs ≡ filter q xs
filter_cong p q h [] = refl
filter_cong p q h (x ∷ xs) = ground (arith, h x, filter_cong p q h xs)

All-map :
    {A : Type 0} (P Q : A → Type 0) → ((x : A) → P x → Q x) → (xs : List A) → All P xs → All Q xs
All-map P Q h [] ps = tt
All-map P Q h (x ∷ xs) (p, ps) = (h x p, All-map P Q h xs ps)

known_leb : (n : ℕ) (b : Bool) → n ≡ (if b then 1 else 0) → b ≡ leb 1 n
known_leb n true h = ground arith
known_leb n false h = ground arith

module _ {R W : Type 0} (analyze : Text → W → Option R × W)
    (process : Text → Text → R → W → Bool × W) where
  -- Whatever the analysis and the processing do and wherever they raise, a cycle asks for every watched
  -- ticker, takes one result of a ticker at most, and then processes exactly the assignments whose ticker
  -- has a result, each once, in their order: a failure holds up no other ticker and no other user. The
  -- report counts the assignments, the tickers with a result and the calls that raised.
  pub run_cycle-IsServed :
      (assignments : List (Text × Text)) (w : W)
      → IsServed assignments
          (run_cycle (logged_analyze analyze) (logged_process process) assignments (w, [])).0
          (run_cycle (logged_analyze analyze) (logged_process process) assignments (w, [])).1.1
  unfolding run_cycle occurrences served
  run_cycle-IsServed assignments w =
      let c0 : LoggedRunning R W = started (w, []) in
      let a0 : IsCounted [] c0 = record {
        known = λ t. refl;
        failed = refl;
        size = refl;
        calls = refl;
      } in
      let c1 : LoggedRunning R W = after_all analyze assignments c0 in
      let a1 : IsCounted [] c1 = analyze_all-IsCounted analyze assignments c0 a0 in
      let p = process_all-IsProcessed process assignments [] c1 a1 in
      let d : LoggedRunning R W = served_all process assignments c1 in
      let log = log_of d in
      let same : (a : Text × Text)
          → is_some (result_of a.1 c1.results) ≡ leb 1 (occurrences (is_result a.1) log) =
        λ a.
          ap (λ rs. is_some (result_of a.1 rs)) (sym p.results)
          ∙ known_leb (occurrences (is_result a.1) log) (is_some (result_of a.1 d.results))
              (p.counted.known a.1) in
      record {
        once = λ t. ground (arith, p.counted.known t);
        asked =
            All-map (λ a. 1 ≤ occurrences (asks a.1) (log_of c1))
              (λ a. 1 ≤ occurrences (asks a.1) log) (λ a h. omega (arith, h, p.more (asks a.1)))
              assignments (every_ticker_asked analyze assignments c0 a0);
        processed =
            p.counted.calls
            ∙ filter_cong (λ a. is_some (result_of a.1 c1.results))
                (λ a. leb 1 (occurrences (is_result a.1) log)) same assignments;
        listed = refl;
        analyzed = p.counted.size;
        failed = p.counted.failed;
      }
