-- ===== src/Swing/Emerging/Caps.antt =====
-- What the demand score of stockanalyzer/explain/emerging.py can reach.
use stock_graph_analyzer.Base.{
  ℕ, ◌≡◌, refl, Bool, true, false, ◌&&◌, Option, some, List, ◌∷◌, inl, inr, ◌⊎◌, arith, Bool-cases,
  length,
}
use stock_graph_analyzer.Float.{Float, IsOrdered, ◌≤?◌, ◌≥?◌, lit}
use stock_graph_analyzer.Float.Order.{min-le, min-le_right}
use stock_graph_analyzer.Swing.{SwingBar}
use stock_graph_analyzer.Swing.Emerging.{
  EmergingScore, distribution_call, extended_call, healthy_demand, building, early_unproven, weak,
  emerging_score_cap, distribution_score_cap, healthy_min_confidence, is_distribution, demand_label,
  assemble, score_emerging,
}

module _ {F : Type 0} ⦃f : Float F⦄ where
  -- the call, and what it takes
  pub data IsCalled (es : EmergingScore F) : Type 0 where
    distributed :
        es.label ≡ distribution_call → (es.score ≤? distribution_score_cap) ≡ true → IsCalled es
    not_chased : es.label ≡ extended_call → es.extended ≡ true → IsCalled es
    healthy :
        es.label ≡ healthy_demand
        → es.extended ≡ false
        → (es.score ≥? lit 65 0) ≡ true
        → (es.confidence ≥? healthy_min_confidence) ≡ true
        → IsCalled es
    unproven :
        (es.label ≡ building) ⊎ ((es.label ≡ early_unproven) ⊎ (es.label ≡ weak))
        → es.extended ≡ false
        → (es.score ≥? lit 65 0 && (es.confidence ≥? healthy_min_confidence)) ≡ false
        → IsCalled es

  abbrev pub IsCapped : EmergingScore F → Type 0
  IsCapped es = ((es.score ≤? emerging_score_cap) ≡ true) × IsCalled es

  demand-IsCalled :
      (es : EmergingScore F)
      → es.label ≡ demand_label false es.extended es.score es.confidence
      → IsCalled es
  unfolding demand_label
  demand-IsCalled es q = elim (Bool-cases es.extended) [
    | inl e ↦ not_chased (ground arith) e
    | inr e ↦
        elim (Bool-cases (es.score ≥? lit 65 0 && (es.confidence ≥? healthy_min_confidence))) [
          | inl h ↦ healthy (ground arith) e (ground arith) (ground arith)
          | inr h ↦ elim (Bool-cases (es.score ≥? lit 50 0)) [
            | inl b ↦ unproven (inl (ground arith)) e h
            | inr b ↦ elim (Bool-cases (es.score ≥? lit 35 0)) [
              | inl y ↦ unproven (inr (inl (ground arith))) e h
              | inr y ↦ unproven (inr (inr (ground arith))) e h
            ]
          ]
        ]
  ]

  module _ (order : IsOrdered F) where
    assemble-IsCapped :
        (n : ℕ) (anchor extension acc cs : F) (vol : F × Bool) (vw : Option F)
        → IsCapped (assemble n anchor extension acc cs vol vw)
    unfolding assemble demand_label
    assemble-IsCapped n anchor extension acc cs vol vw =
        let es = assemble n anchor extension acc cs vol vw in
        let low = min-le order emerging_score_cap in
        elim (Bool-cases (is_distribution extension cs)) [
          | inl d ↦ rw d (
            order.le_trans _ _ _ (min-le order _ _) (low _),
            distributed refl (min-le_right order _ _),
          )
          | inr d ↦ rw d (low _, demand-IsCalled _ refl)
        ]

    -- A frame with a bar gets a demand score of at most 75. The call is distribution risk, with a
    -- score of at most 40; or extended; or healthy demand, which takes a score of at least 65, a
    -- confidence of at least 0.30 and a price that is not extended; or one of the three weaker
    -- calls, where that is not given.
    pub score_emerging-IsCapped :
        (b : SwingBar F) (bars : List (SwingBar F)) (offering_price vwap : Option F)
        → (es : EmergingScore F) × ((score_emerging (b ∷ bars) offering_price vwap ≡ some es)
            × IsCapped es)
    unfolding score_emerging
    score_emerging-IsCapped b bars offering_price vwap =
        (_, (refl, assemble-IsCapped (length (b ∷ bars)) _ _ _ _ _ _))
