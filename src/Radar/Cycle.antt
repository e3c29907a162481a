-- ===== src/Radar/Cycle.antt =====
-- One cycle over the watched tickers: `run_cycle` of stockanalyzer/radar_worker.py. The analysis and the
-- processing of a result are calls that change a world and may raise.
pub mod Log
pub mod Analyses
pub mod Served
use stock_graph_analyzer.Base.{
  ℕ, suc, ◌+◌, Bool, true, false, Option, some, none, List, [], ◌∷◌, ◌++◌, if◌then◌else◌, length,
  Text, text_eq, is_some,
}

pub record CycleReport : Type 0 where
  pub assignments : ℕ
  pub tickers_analyzed : ℕ
  pub failures : ℕ

-- the locals of the cycle and the world; the dictionary keeps the order of its insertions
pub record Running (R W : Type 0) : Type 0 where
  pub results : List (Text × R)
  pub failures : ℕ
  pub world : W

unfoldable pub result_of : {R : Type 0} → Text → List (Text × R) → Option R
result_of ticker [] = none
result_of ticker ((t, r) ∷ rs) =
    let rest = result_of ticker rs in if text_eq t ticker then some r else rest

module _ {R W : Type 0} where
  abbrev pub settle : Text → Running R W → Option R × W → Running R W
  settle ticker c (none, w) = record { results = c.results; failures = suc c.failures; world = w }
  settle ticker c (some r, w) = record {
    results = c.results ++ ((ticker, r) ∷ []);
    failures = c.failures;
    world = w;
  }

  unfoldable pub analyze_one : (Text → W → Option R × W) → Text → Running R W → Running R W
  unfolding result_of
  analyze_one analyze ticker c =
      if is_some (result_of ticker c.results) then c else settle ticker c (analyze ticker c.world)

  unfoldable pub analyze_all :
      (Text → W → Option R × W) → List (Text × Text) → Running R W → Running R W
  unfolding analyze_one
  analyze_all analyze [] c = c
  analyze_all analyze ((user, ticker) ∷ rest) c =
      analyze_all analyze rest (analyze_one analyze ticker c)

  abbrev pub note : Running R W → Bool × W → Running R W
  note c (true, w) = record c { world = w }
  note c (false, w) = record c { failures = suc c.failures; world = w }

  abbrev pub apply_result :
      (Text → Text → R → W → Bool × W) → Text → Text → Option R → Running R W → Running R W
  apply_result process user ticker none c = c
  apply_result process user ticker (some r) c = note c (process user ticker r c.world)

  unfoldable pub process_all :
      (Text → Text → R → W → Bool × W) → List (Text × Text) → Running R W → Running R W
  unfolding result_of
  process_all process [] c = c
  process_all process ((user, ticker) ∷ rest) c =
      process_all process rest (apply_result process user ticker (result_of ticker c.results) c)

  abbrev pub started : W → Running R W
  started w = record { results = []; failures = 0; world = w }

  unfoldable pub run_cycle :
      (Text → W → Option R × W)
      → (Text → Text → R → W → Bool × W)
      → List (Text × Text)
      → W
      → CycleReport × W
  unfolding analyze_all process_all
  run_cycle analyze process assignments w =
      let c = process_all process assignments (analyze_all analyze assignments (started w)) in
      (
        record {
          assignments = length assignments;
          tickers_analyzed = length c.results;
          failures = c.failures;
        },
        c.world,
      )
