-- ===== src/Swing/Orders/Gates.antt =====
-- What the gates of stockanalyzer/explain/swing.py come to.
use stock_graph_analyzer.Base.{◌≡◌, refl, true, false, ◌||◌, inl, inr, arith, Bool-cases, ◌⊎◌}
use stock_graph_analyzer.Swing.{PlanKind, immediate, breakout_wait, no_trade}
use stock_graph_analyzer.Swing.Plan.{
  Light, go_light, forming, no_light, Gates, is_go, is_actionable, light_of, is_immediate,
  waits_for_breakout,
}

abbrev pub IsUnlit : Light → Type 0
IsUnlit light = (light ≡ forming) ⊎ (light ≡ no_light)

-- what the gates come to
pub data IsDecided (g : Gates) : Type 0 where
  entered :
      is_go g ≡ true
      → light_of g ≡ go_light
      → is_actionable g ≡ true
      → g.kind ≡ immediate
      → g.setup_present ≡ true
      → g.rr_ok ≡ true
      → g.aim_ok ≡ true
      → g.earnings_block ≡ false
      → g.crash_block ≡ false
      → g.overext ≡ false
      → g.adverse_trend ≡ false
      → g.against ≡ false
      → IsDecided g
  armed :
      is_go g ≡ false
      → light_of g ≡ forming
      → is_actionable g ≡ true
      → g.kind ≡ breakout_wait
      → g.rr_ok ≡ true
      → g.trigger_near ≡ true
      → g.earnings_block ≡ false
      → g.crash_block ≡ false
      → IsDecided g
  watched : is_go g ≡ false → is_actionable g ≡ false → IsUnlit (light_of g) → IsDecided g

is_immediate-immediate : (k : PlanKind) → is_immediate k ≡ true → k ≡ immediate
is_immediate-immediate immediate h = refl
is_immediate-immediate breakout_wait h = ground arith
is_immediate-immediate no_trade h = ground arith

waits_for_breakout-breakout_wait : (k : PlanKind) → waits_for_breakout k ≡ true → k ≡ breakout_wait
waits_for_breakout-breakout_wait immediate h = ground arith
waits_for_breakout-breakout_wait breakout_wait h = refl
waits_for_breakout-breakout_wait no_trade h = ground arith

go-IsDecided : (g : Gates) → is_go g ≡ true → IsDecided g
unfolding is_go light_of is_actionable
go-IsDecided g e =
    entered e (rw e refl) (rw e refl) (is_immediate-immediate g.kind (ground arith)) (ground arith)
      (ground arith) (ground arith) (ground arith) (ground arith) (ground arith) (ground arith)
      (ground arith)

no_go-IsDecided : (g : Gates) → is_go g ≡ false → IsDecided g
unfolding is_go light_of is_actionable
no_go-IsDecided g e = elim (Bool-cases (is_actionable g)) [
  | inl a ↦
      armed e (ground arith) a (waits_for_breakout-breakout_wait g.kind (ground arith))
        (ground arith) (ground arith) (ground arith) (ground arith)
  | inr a ↦ watched e a (elim (Bool-cases (g.setup_present || waits_for_breakout g.kind)) [
    | inl t ↦ inl (rw (e, t) refl)
    | inr t ↦ inr (rw (e, t) refl)
  ])
]

pub gates-IsDecided : (g : Gates) → IsDecided g
gates-IsDecided g = elim (Bool-cases (is_go g)) [
  | inl e ↦ go-IsDecided g e
  | inr e ↦ no_go-IsDecided g e
]
