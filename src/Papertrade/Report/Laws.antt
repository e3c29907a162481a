-- ===== src/Papertrade/Report/Laws.antt =====
-- The counts of `summarize` (stockanalyzer/papertrade.py) add up.
use mathlib.Core.Path.{subst}
use stock_graph_analyzer.Base.{
  ◌≡◌, refl, List, [], ◌∷◌, ℕ, suc, ◌+◌, ◌≤◌, Bool, length, filter, arith, Bool-cases, inl, inr,
  length-append, is_some, ltb,
}
use stock_graph_analyzer.Float.{Float}
use stock_graph_analyzer.Papertrade.{
  PaperStatus, still_open, target_hit, stop_hit, expired, not_triggered,
}
use stock_graph_analyzer.Papertrade.Journal.{PaperTrade}
use stock_graph_analyzer.Papertrade.Report.{
  Tally, Card, Keyed, empty_tally, at_level, any_level, count, count_if, count_record,
  count_records, card_of, summarize,
}

module _ {F : Type 0} ⦃f : Float F⦄ where
  -- the loop for one key alone
  tally : (PaperTrade F → Bool) → List (PaperTrade F) → Tally F → Tally F
  tally sel [] o = o
  tally sel (r ∷ rs) o = tally sel rs (count_if sel r o)

  -- the four keys do not disturb each other
  count_records-tally :
      (rs : List (PaperTrade F)) (o : Keyed (Tally F))
      → count_records rs o ≡ record {
        at_60 = tally (at_level 60) rs o.at_60;
        at_70 = tally (at_level 70) rs o.at_70;
        at_80 = tally (at_level 80) rs o.at_80;
        overall = tally any_level rs o.overall;
      }
  unfolding count_records tally
  count_records-tally [] o = refl
  count_records-tally (r ∷ rs) o = count_records-tally rs (count_record r o)

  -- after m records
  record IsBalanced (m : ℕ) (o : Tally F) : Type 0 where
    pub total : o.n ≡ m
    pub parts : o.wins + o.losses + o.open_count + o.not_triggered_count ≡ o.n
    pub decided : length o.results ≡ o.wins + o.losses
    pub expiries : o.expired_count ≤ o.wins + o.losses

  count-IsBalanced :
      (s : PaperStatus) (res : F) (m : ℕ) (o : Tally F)
      → IsBalanced m o
      → IsBalanced (suc m) (count s res o)
  unfolding count
  count-IsBalanced still_open res m o h = ground arith
  count-IsBalanced target_hit res m o h = ground (arith, length-append o.results (res ∷ []))
  count-IsBalanced stop_hit res m o h = ground (arith, length-append o.results (res ∷ []))
  count-IsBalanced expired res m o h = ground (arith, length-append o.results (res ∷ []))
  count-IsBalanced not_triggered res m o h = ground arith

  tally-IsBalanced :
      (sel : PaperTrade F → Bool) (rs : List (PaperTrade F)) (m : ℕ) (o : Tally F)
      → IsBalanced m o
      → IsBalanced (m + length (filter sel rs)) (tally sel rs o)
  unfolding tally
  tally-IsBalanced sel [] m o h = subst (λ k. IsBalanced k o) (omega arith) h
  tally-IsBalanced sel (r ∷ rs) m o h = elim (Bool-cases (sel r)) [
    | inl e ↦ rw e (
        subst (λ k. IsBalanced k (tally sel rs (count r.status r.result_pct o))) (omega arith)
          (tally-IsBalanced sel rs (suc m) (count r.status r.result_pct o)
            (count-IsBalanced r.status r.result_pct m o h)))
    | inr e ↦ rw e (tally-IsBalanced sel rs m o h)
  ]

  -- the card of the selected records
  pub record IsReport (sel : PaperTrade F → Bool) (rs : List (PaperTrade F)) (c : Card F)
      : Type 0 where
    pub total : c.counts.n ≡ length (filter sel rs)
    pub parts :
        c.counts.wins + c.counts.losses + c.counts.open_count + c.counts.not_triggered_count
        ≡ c.counts.n
    pub expiries : c.counts.expired_count ≤ c.counts.wins + c.counts.losses
    pub rated : is_some c.win_rate ≡ ltb 0 (c.counts.wins + c.counts.losses)
    pub averaged : is_some c.avg_result ≡ is_some c.win_rate

  card_of-IsReport :
      (sel : PaperTrade F → Bool) (rs : List (PaperTrade F)) (o : Tally F)
      → IsBalanced (length (filter sel rs)) o
      → IsReport sel rs (card_of o)
  unfolding card_of
  card_of-IsReport sel rs o h = ground arith

  empty-IsBalanced : IsBalanced 0 empty_tally
  empty-IsBalanced = ground arith

  tally-IsReport :
      (sel : PaperTrade F → Bool) (rs : List (PaperTrade F))
      → IsReport sel rs (card_of (tally sel rs empty_tally))
  tally-IsReport sel rs = card_of-IsReport sel rs (tally sel rs empty_tally) (
      subst (λ k. IsBalanced k (tally sel rs empty_tally)) (omega arith)
        (tally-IsBalanced sel rs 0 empty_tally empty-IsBalanced))

  -- Each key's card of the report counts the records of its level, and the overall one all of them.
  -- Wins, losses, open and untriggered ones add up to its number, the expired ones are among the wins
  -- and losses, and it has a win rate and an average exactly when there is a win or a loss.
  pub summarize-IsReport :
      (rs : List (PaperTrade F))
      → IsReport (at_level 60) rs (summarize rs).at_60
        × IsReport (at_level 70) rs (summarize rs).at_70
        × IsReport (at_level 80) rs (summarize rs).at_80
        × IsReport any_level rs (summarize rs).overall
  unfolding summarize
  summarize-IsReport rs =
      rw
        (count_records-tally rs (record {
          at_60 = empty_tally;
          at_70 = empty_tally;
          at_80 = empty_tally;
          overall = empty_tally;
        }))
        (
          tally-IsReport (at_level 60) rs,
          tally-IsReport (at_level 70) rs,
          tally-IsReport (at_level 80) rs,
          tally-IsReport any_level rs,
        )
