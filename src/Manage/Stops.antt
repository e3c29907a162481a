-- ===== src/Manage/Stops.antt =====
-- Stops are only ever tightened (stockanalyzer/manage.py).
use stock_graph_analyzer.Base.{
  List, Bool-cases, inl, inr, refl, ◌≡◌, ◌⊎◌, true, false, not, ◌&&◌, none, some, All, All-append,
  arith, length, length-append, ◌≤◌,
}
use stock_graph_analyzer.Float.{Float, ◌>?◌, lit}
use stock_graph_analyzer.Manage.{
  ManageAction, trend_test_tighten, trail_stop, move_stop_breakeven, weekend_flat, Position,
  Picture, test_actions, trail_actions, assess_position, r_multiple_now,
}

module _ {F : Type 0} ⦃f : Float F⦄ where
  -- the action is one of the three that leave the position open, and sets a stop above the given one
  abbrev pub Tightens : F → ManageAction F → Type 0
  Tightens stop a =
      ((a.kind ≡ trend_test_tighten) ⊎ ((a.kind ≡ trail_stop) ⊎ (a.kind ≡ move_stop_breakeven)))
      × ((s : F) × (a.new_stop ≡ some s) × ((s >? stop) ≡ true) × (a.fraction ≡ none))

  -- the action closes the whole position
  abbrev pub Closes : ManageAction F → Type 0
  Closes a = (a.kind ≡ weekend_flat) × (a.fraction ≡ some (lit 1 0)) × (a.new_stop ≡ none)

  test_actions-Tightens :
      (p : Position F) (m : Picture F) (price r_now : F)
      → All (Tightens p.stop) (test_actions p m price r_now)
        × (length (test_actions p m price r_now) ≤ 1)
  unfolding test_actions
  test_actions-Tightens p m price r_now = ground arith

  trail_actions-Tightens :
      (p : Position F) (m : Picture F) (r_now : F)
      → All (Tightens p.stop) (trail_actions p m r_now) × (length (trail_actions p m r_now) ≤ 1)
  unfolding trail_actions
  trail_actions-Tightens p m r_now = ground arith

  -- the answer to the Friday cut-off, or actions that only raise the stop
  pub data IsAssessment (p : Position F) (price : F) (m : Picture F)
      (actions : List (ManageAction F)) : Type 0 where
    flattening :
        m.is_friday_flat && not m.hold_weekend ≡ true
        → All Closes actions
        → length actions ≡ 1
        → IsAssessment p price m actions
    tightening :
        m.is_friday_flat && not m.hold_weekend ≡ false
        → All (Tightens p.stop) actions
        → length actions ≤ 2
        → IsAssessment p price m actions

  -- The assessment answers the Friday cut-off with one action, a weekend flat of the whole position,
  -- unless the weekend is held. Otherwise it gives at most two actions; each is a tightening after a
  -- test, a trailing stop or a move to breakeven, never a weekend flat, sets a stop strictly above the
  -- current one and closes no part of the position.
  pub assess_position-IsAssessment :
      (p : Position F) (price : F) (m : Picture F)
      → IsAssessment p price m (assess_position p price m)
  unfolding assess_position
  assess_position-IsAssessment p price m =
      let r_now = r_multiple_now p price in
      let (tests, one) = test_actions-Tightens p m price r_now in
      let (trails, two) = trail_actions-Tightens p m r_now in
      elim (Bool-cases (m.is_friday_flat && not m.hold_weekend)) [
        | inl flat ↦ flattening flat (rw flat ((refl, refl, refl), tt)) (rw flat refl)
        | inr stay ↦
            tightening stay
              (rw stay (
                All-append (Tightens p.stop) (test_actions p m price r_now)
                  (trail_actions p m r_now) tests trails))
              (rw stay (
                omega
                  (arith, length-append (test_actions p m price r_now) (trail_actions p m r_now))))
      ]
