-- ===== src/Papertrade/Report.antt =====
-- The report card of the journal: `summarize` of stockanalyzer/papertrade.py.
pub mod Laws
use stock_graph_analyzer.Base.{
  Option, some, none, List, [], ◌∷◌, ◌++◌, if◌then◌else◌, ℕ, zero, suc, ◌+◌, ◌==◌, Bool, true,
  length,
}
use stock_graph_analyzer.Float.{Float, ◌⊕◌, ◌⊗◌, ◌⊘◌, ◌>?◌, lit, round}
use stock_graph_analyzer.Papertrade.{
  PaperStatus, still_open, target_hit, stop_hit, expired, not_triggered,
}
use stock_graph_analyzer.Papertrade.Journal.{PaperTrade}

-- `out[key]` and `results[key]` in the loop
pub record Tally (F : Type 0) : Type 0 where
  pub n : ℕ
  pub wins : ℕ
  pub losses : ℕ
  pub expired_count : ℕ
  pub open_count : ℕ
  pub not_triggered_count : ℕ
  pub results : List F

-- `out[key]` at the end
pub record Card (F : Type 0) : Type 0 where
  pub counts : Tally F
  pub win_rate : Option F
  pub avg_result : Option F

-- one for each of the keys 60, 70, 80 and "all"
pub record Keyed (A : Type 0) : Type 0 where
  pub at_60 : A
  pub at_70 : A
  pub at_80 : A
  pub overall : A

abbrev pub empty_tally : {F : Type 0} → Tally F
empty_tally = record {
  n = 0;
  wins = 0;
  losses = 0;
  expired_count = 0;
  open_count = 0;
  not_triggered_count = 0;
  results = [];
}

abbrev pub at_level : {F : Type 0} → ℕ → PaperTrade F → Bool
at_level k r = r.level == k

abbrev pub any_level : {F : Type 0} → PaperTrade F → Bool
any_level r = true

module _ {F : Type 0} ⦃f : Float F⦄ where
  unfoldable pub count : PaperStatus → F → Tally F → Tally F
  count target_hit res o = record o {
    n = suc o.n;
    wins = suc o.wins;
    results = o.results ++ (res ∷ []);
  }
  count stop_hit res o = record o {
    n = suc o.n;
    losses = suc o.losses;
    results = o.results ++ (res ∷ []);
  }
  count expired res o = record o {
    n = suc o.n;
    expired_count = suc o.expired_count;
    wins = (if res >? lit 0 0 then suc o.wins else o.wins);
    losses = (if res >? lit 0 0 then o.losses else suc o.losses);
    results = o.results ++ (res ∷ []);
  }
  count not_triggered res o = record o {
    n = suc o.n;
    not_triggered_count = suc o.not_triggered_count;
  }
  count still_open res o = record o { n = suc o.n; open_count = suc o.open_count }

  abbrev pub count_if : (PaperTrade F → Bool) → PaperTrade F → Tally F → Tally F
  count_if sel r o = if sel r then count r.status r.result_pct o else o

  -- the body of the loop over the records
  abbrev pub count_record : PaperTrade F → Keyed (Tally F) → Keyed (Tally F)
  count_record r o = record {
    at_60 = count_if (at_level 60) r o.at_60;
    at_70 = count_if (at_level 70) r o.at_70;
    at_80 = count_if (at_level 80) r o.at_80;
    overall = count_if any_level r o.overall;
  }

  unfoldable pub count_records : List (PaperTrade F) → Keyed (Tally F) → Keyed (Tally F)
  unfolding count
  count_records [] o = o
  count_records (r ∷ rs) o = count_records rs (count_record r o)

  -- `sum(results[k])`
  abbrev sum_from : F → List F → F
  sum_from total [] = total
  sum_from total (x ∷ xs) = sum_from (total ⊕ x) xs

  abbrev rate_of : ℕ → ℕ → Option F
  rate_of wins zero = none
  rate_of wins (suc d) = some (round (lit wins 0 ⊘ lit (suc d) 0 ⊗ lit 100 0) 0)

  abbrev average_of : List F → Option F
  average_of [] = none
  average_of (x ∷ xs) = some (round (sum_from (lit 0 0) (x ∷ xs) ⊘ lit (length (x ∷ xs)) 0) 2)

  unfoldable pub card_of : Tally F → Card F
  card_of o = record {
    counts = o;
    win_rate = rate_of o.wins (o.wins + o.losses);
    avg_result = average_of o.results;
  }

  unfoldable pub summarize : List (PaperTrade F) → Keyed (Card F)
  unfolding count_records card_of
  summarize rs =
      let out = count_records rs (record {
        at_60 = empty_tally;
        at_70 = empty_tally;
        at_80 = empty_tally;
        overall = empty_tally;
      }) in
      record {
        at_60 = card_of out.at_60;
        at_70 = card_of out.at_70;
        at_80 = card_of out.at_80;
        overall = card_of out.overall;
      }
