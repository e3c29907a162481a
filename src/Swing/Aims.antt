-- ===== src/Swing/Aims.antt =====
-- What a plan of stockanalyzer/explain/swing.py may aim at.
pub mod Long
pub mod Short
use stock_graph_analyzer.Base.{ℕ, suc, ◌≡◌, false, Bool, Option, some, none, List, [], ◌∷◌}

-- A wall among the first few, the walls before it all passing a test, and the one after it.
pub data Rung {F : Type 0} (test : F → Bool) : ℕ → List F → F → Option F → Type 0 where
  last_wall : {n : ℕ} {w : F} → test w ≡ false → Rung test (suc n) (w ∷ []) w none
  next_wall :
      {n : ℕ} {w v : F} {ws : List F} → test w ≡ false → Rung test (suc n) (w ∷ v ∷ ws) w (some v)
  after :
      {n : ℕ} {u w : F} {ws : List F} {v : Option F}
      → test u ≡ false
      → Rung test n ws w v
      → Rung test (suc n) (u ∷ ws) w v
