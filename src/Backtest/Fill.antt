-- ===== src/Backtest/Fill.antt =====
-- What the counterfactual fill of backtest.py changes.
use stock_graph_analyzer.Base.{
  ℕ, suc, ◌≡◌, ◌≢◌, ◌≤◌, refl, sym, ap, ◌∙◌, false, Option, some, none, List, [], ◌∷◌, leb, inl,
  inr, ◌⊎◌, arith, Bool-cases, Option-cases,
}
use stock_graph_analyzer.Float.{Float, ◌≥?◌}
use stock_graph_analyzer.Papertrade.{
  DailyBar, Proposition, not_triggered, judge_outcome, judge_active, judge_waiting, judge_from,
}
use stock_graph_analyzer.Backtest.{hold, await_fill, judge_close_fill, wait_or, fill_at}

leb-patience : (wait more n : ℕ) → wait ≤ more → leb wait n ≡ false → leb more n ≡ false
leb-patience wait more n h w = ground arith

wait_or-nonzero : (wait horizon_days : ℕ) → wait ≢ 0 → wait_or (some wait) horizon_days ≡ wait
wait_or-nonzero wait horizon_days z = ground arith

module _ {F : Type 0} ⦃f : Float F⦄ where
  hold-judge_active :
      (p : Proposition F) (entry : F) (n : ℕ) (last : F) (bars : List (DailyBar F))
      → hold p entry n last bars ≡ judge_active p entry n last bars
  unfolding hold judge_active
  hold-judge_active p entry n last [] = refl
  hold-judge_active p entry n last (b ∷ bars) =
      rw (hold-judge_active p entry (suc n) b.close bars) refl

  await_fill-judge_waiting :
      (p : Proposition F) (trigger : F) (n : ℕ) (bars : List (DailyBar F))
      → await_fill p trigger p.horizon_days n bars ≡ judge_waiting p trigger n bars
  unfolding await_fill judge_waiting
  await_fill-judge_waiting p trigger n [] = refl
  await_fill-judge_waiting p trigger n (b ∷ bars) =
      rw
        (
          await_fill-judge_waiting p trigger (suc n) bars,
          hold-judge_active p b.close 1 b.close bars,
        )
        refl

  await_fill-judge_outcome :
      (p : Proposition F) (trigger : F) (bars : List (DailyBar F))
      → p.trigger ≡ some trigger
      → await_fill p trigger p.horizon_days 0 bars ≡ judge_outcome bars p
  unfolding judge_outcome judge_from await_fill
  await_fill-judge_outcome p trigger [] e = refl
  await_fill-judge_outcome p trigger (b ∷ bars) e =
      await_fill-judge_waiting p trigger 0 (b ∷ bars) ∙ ap (λ o. judge_from p o b bars) (sym e)

  -- Without a waiting time of its own, the close-fill rule gives every proposition on every bars the
  -- status and the result of judge_outcome.
  pub judge_close_fill-judge_outcome :
      (bars : List (DailyBar F)) (p : Proposition F)
      → judge_close_fill bars p none ≡ judge_outcome bars p
  unfolding judge_close_fill judge_outcome judge_from
  judge_close_fill-judge_outcome bars p = elim (Option-cases p.trigger) [
    | inl e ↦
        ap (λ o. fill_at bars p none o) e
        ∙ ap (λ o. judge_outcome bars (record p { trigger = o })) (sym e)
    | inr (trigger, e) ↦
        ap (λ o. fill_at bars p none o) e ∙ await_fill-judge_outcome p trigger bars e
  ]

  await_fill-patience :
      (p : Proposition F) (trigger : F) (wait more : ℕ) (n : ℕ) (bars : List (DailyBar F))
      → wait ≤ more
      → ((await_fill p trigger wait n bars).status ≡ not_triggered)
        ⊎ (await_fill p trigger more n bars ≡ await_fill p trigger wait n bars)
  unfolding await_fill
  await_fill-patience p trigger wait more n [] h = inr refl
  await_fill-patience p trigger wait more n (b ∷ bars) h =
      let ih = await_fill-patience p trigger wait more (suc n) bars h in
      elim (Bool-cases (b.close ≥? trigger)) [
        | inl e ↦ rw e (inr refl)
        | inr e ↦ elim (Bool-cases (leb wait (suc n))) [
          | inl w ↦ rw (e, w) (inl refl)
          | inr w ↦ rw (e, w, leb-patience wait more (suc n) h w) ih
        ]
      ]

  fill_at-patience :
      (bars : List (DailyBar F)) (p : Proposition F) (wait more : ℕ) (o : Option F)
      → wait ≢ 0
      → wait ≤ more
      → ((fill_at bars p (some wait) o).status ≡ not_triggered)
        ⊎ (fill_at bars p (some more) o ≡ fill_at bars p (some wait) o)
  fill_at-patience bars p wait more none z h = inr refl
  fill_at-patience bars p wait more (some trigger) z h =
      let k : more ≢ 0 = omega arith in
      rw (wait_or-nonzero wait p.horizon_days z, wait_or-nonzero more p.horizon_days k)
        (await_fill-patience p trigger wait more 0 bars h)

  -- A longer wait changes only what was not triggered: where the shorter wait, of at least one
  -- bar, does not end in not_triggered, the longer one gives the same status and result.
  judge_close_fill-patience :
      (bars : List (DailyBar F)) (p : Proposition F) (wait more : ℕ)
      → wait ≢ 0
      → wait ≤ more
      → ((judge_close_fill bars p (some wait)).status ≡ not_triggered)
        ⊎ (judge_close_fill bars p (some more) ≡ judge_close_fill bars p (some wait))
  unfolding judge_close_fill
  judge_close_fill-patience bars p wait more z h = fill_at-patience bars p wait more p.trigger z h
