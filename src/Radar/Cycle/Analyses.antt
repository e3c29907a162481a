-- ===== src/Radar/Cycle/Analyses.antt =====
-- The analyses of a cycle of stockanalyzer/radar_worker.py.
use stock_graph_analyzer.Base.{
  ◌≡◌, sym, ap, ◌∙◌, Bool, true, false, Option, some, none, List, [], ◌∷◌, ◌++◌, if◌then◌else◌,
  length, Text, text_eq, is_some, arith, Bool-cases, inl, inr, length-append, text_eq_iff,
  text_eq_refl, ◌≤◌, All,
}
use stock_graph_analyzer.Radar.Cycle.{result_of, settle, analyze_one, analyze_all}
use stock_graph_analyzer.Radar.Cycle.Log.{
  RadarCall, analyzed, is_failure, is_result, is_success, served, occurrences, occurrences-append,
  served-append, result_of-append, log_analysis, logged_analyze, LoggedRunning, log_of, asks,
  result-asks,
}

module _ {R W : Type 0} where
  -- what the counters and the dictionary say of the calls, and the assignments processed so far
  pub record IsCounted (done : List (Text × Text)) (c : LoggedRunning R W) : Type 0 where
    pub known :
        (t : Text)
        → occurrences (is_result t) (log_of c) ≡ (if is_some (result_of t c.results) then 1 else 0)
    pub failed : c.failures ≡ occurrences is_failure (log_of c)
    pub size : length c.results ≡ occurrences is_success (log_of c)
    pub calls : served (log_of c) ≡ done

  abbrev settled : Text → LoggedRunning R W → Option R × W → LoggedRunning R W
  settled ticker c out = settle ticker c (log_analysis ticker (log_of c) out)

  known_settled :
      (ticker : Text) (c : LoggedRunning R W) (r : R)
      → is_some (result_of ticker c.results) ≡ false
      → IsCounted [] c
      → (t : Text)
      → occurrences (is_result t) (log_of c ++ (analyzed ticker true ∷ []))
        ≡ (if is_some (result_of t (c.results ++ ((ticker, r) ∷ []))) then 1 else 0)
  unfolding occurrences
  known_settled ticker c r fresh a t =
      let more = occurrences-append (is_result t) (log_of c) (analyzed ticker true ∷ []) in
      let kept = result_of-append t ticker r c.results in
      elim (Bool-cases (text_eq ticker t)) [
        | inr e ↦ ground (arith, a.known t, more, kept)
        | inl e ↦
            let q : ticker ≡ t = (text_eq_iff ticker t).0 e in
            let none : is_some (result_of t c.results) ≡ false =
              ap (λ u. is_some (result_of u c.results)) (sym q) ∙ fresh in
            ground (arith, a.known t, more, kept)
      ]

  settled-IsCounted :
      (ticker : Text) (c : LoggedRunning R W) (out : Option R × W)
      → is_some (result_of ticker c.results) ≡ false
      → IsCounted [] c
      → IsCounted [] (settled ticker c out)
  unfolding occurrences served
  settled-IsCounted ticker c (none, w) fresh a = record {
    known = λ t. ground (
      arith,
      a.known t,
      occurrences-append (is_result t) (log_of c) (analyzed ticker false ∷ []),
    );
    failed =
        omega
          (arith, a.failed, occurrences-append is_failure (log_of c) (analyzed ticker false ∷ []));
    size =
        omega
          (arith, a.size, occurrences-append is_success (log_of c) (analyzed ticker false ∷ []));
    calls = served-append (log_of c) (analyzed ticker false ∷ []) ∙ ap (λ s. s ++ []) a.calls;
  }
  settled-IsCounted ticker c (some r, w) fresh a = record {
    known = known_settled ticker c r fresh a;
    failed =
        omega
          (arith, a.failed, occurrences-append is_failure (log_of c) (analyzed ticker true ∷ []));
    size = omega (
      arith,
      a.size,
      length-append c.results ((ticker, r) ∷ []),
      occurrences-append is_success (log_of c) (analyzed ticker true ∷ []),
    );
    calls = served-append (log_of c) (analyzed ticker true ∷ []) ∙ ap (λ s. s ++ []) a.calls;
  }

  -- the calls so far, and no fewer of any kind
  abbrev pub IsMore : LoggedRunning R W → LoggedRunning R W → Type 0
  IsMore c d = (test : RadarCall → Bool) → occurrences test (log_of c) ≤ occurrences test (log_of d)

  settled-IsMore :
      (ticker : Text) (c : LoggedRunning R W) (out : Option R × W) → IsMore c (settled ticker c out)
  settled-IsMore ticker c (none, w) test =
      omega (arith, occurrences-append test (log_of c) (analyzed ticker false ∷ []))
  settled-IsMore ticker c (some r, w) test =
      omega (arith, occurrences-append test (log_of c) (analyzed ticker true ∷ []))

  settled-asks :
      (ticker : Text) (c : LoggedRunning R W) (out : Option R × W)
      → 1 ≤ occurrences (asks ticker) (log_of (settled ticker c out))
  unfolding occurrences
  settled-asks ticker c (none, w) = ground (
    arith,
    text_eq_refl ticker,
    occurrences-append (asks ticker) (log_of c) (analyzed ticker false ∷ []),
  )
  settled-asks ticker c (some r, w) = ground (
    arith,
    text_eq_refl ticker,
    occurrences-append (asks ticker) (log_of c) (analyzed ticker true ∷ []),
  )

  module _ (analyze : Text → W → Option R × W) where
    abbrev after_one : Text → LoggedRunning R W → LoggedRunning R W
    after_one ticker c = analyze_one (logged_analyze analyze) ticker c

    analyze_one-IsCounted :
        (ticker : Text) (c : LoggedRunning R W) → IsCounted [] c → IsCounted [] (after_one ticker c)
    unfolding analyze_one
    analyze_one-IsCounted ticker c a = elim (Bool-cases (is_some (result_of ticker c.results))) [
      | inl e ↦ rw e a
      | inr e ↦ rw e (settled-IsCounted ticker c (analyze ticker c.world.0) e a)
    ]

    analyze_one-IsMore : (ticker : Text) (c : LoggedRunning R W) → IsMore c (after_one ticker c)
    unfolding analyze_one
    analyze_one-IsMore ticker c = elim (Bool-cases (is_some (result_of ticker c.results))) [
      | inl e ↦ rw e (λ test. omega arith)
      | inr e ↦ rw e (settled-IsMore ticker c (analyze ticker c.world.0))
    ]

    analyze_one-asks :
        (ticker : Text) (c : LoggedRunning R W)
        → IsCounted [] c
        → 1 ≤ occurrences (asks ticker) (log_of (after_one ticker c))
    unfolding analyze_one
    analyze_one-asks ticker c a = elim (Bool-cases (is_some (result_of ticker c.results))) [
      | inl e ↦ rw e (ground (arith, a.known ticker, result-asks ticker (log_of c)))
      | inr e ↦ rw e (settled-asks ticker c (analyze ticker c.world.0))
    ]

    abbrev pub after_all : List (Text × Text) → LoggedRunning R W → LoggedRunning R W
    after_all assignments c = analyze_all (logged_analyze analyze) assignments c

    pub analyze_all-IsCounted :
        (assignments : List (Text × Text)) (c : LoggedRunning R W)
        → IsCounted [] c
        → IsCounted [] (after_all assignments c)
    unfolding analyze_all
    analyze_all-IsCounted [] c a = a
    analyze_all-IsCounted ((user, ticker) ∷ rest) c a =
        analyze_all-IsCounted rest (after_one ticker c) (analyze_one-IsCounted ticker c a)

    analyze_all-IsMore :
        (assignments : List (Text × Text)) (c : LoggedRunning R W)
        → IsMore c (after_all assignments c)
    unfolding analyze_all
    analyze_all-IsMore [] c test = omega arith
    analyze_all-IsMore ((user, ticker) ∷ rest) c test =
        omega (
          arith,
          analyze_one-IsMore ticker c test,
          analyze_all-IsMore rest (after_one ticker c) test,
        )

    pub every_ticker_asked :
        (assignments : List (Text × Text)) (c : LoggedRunning R W)
        → IsCounted [] c
        → All
            (λ (a : Text × Text). 1 ≤ occurrences (asks a.1) (log_of (after_all assignments c)))
            assignments
    unfolding analyze_all
    every_ticker_asked [] c a = tt
    every_ticker_asked ((user, ticker) ∷ rest) c a = (
      omega (
        arith,
        analyze_one-asks ticker c a,
        analyze_all-IsMore rest (after_one ticker c) (asks ticker),
      ),
      every_ticker_asked rest (after_one ticker c) (analyze_one-IsCounted ticker c a),
    )
