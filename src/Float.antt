-- ===== src/Float.antt =====
-- What the program does with a Python `float`: literals, the four operations, comparisons, `round`.
-- The type of the floats is a parameter of the development; the laws are hypotheses of the theorems
-- that need them. They are those of floats that are not NaN.
pub mod Fixed
pub mod Order
use stock_graph_analyzer.Base.{
  ℕ, ◌≡◌, ◌⊎◌, Bool, true, not, ◌&&◌, Option, none, some, if◌then◌else◌,
}

pub record Float (F : Type 0) : Type 0 where
  -- the literal n / 10^k: `lit 15 1` is 1.5
  pub lit : ℕ → ℕ → F
  pub neg : F → F
  pub add : F → F → F
  pub sub : F → F → F
  pub mul : F → F → F
  pub div : F → F → F
  pub le : F → F → Bool
  pub lt : F → F → Bool
  pub eq : F → F → Bool
  -- `round(x, k)`
  pub round : F → ℕ → F

module _ {F : Type 0} ⦃f : Float F⦄ where
  infixl 65 ◌⊕◌ ◌⊖◌
  infixl 70 ◌⊗◌ ◌⊘◌
  infix 50 ◌≤?◌ ◌<?◌ ◌≥?◌ ◌>?◌ ◌=?◌
  abbrev pub ◌⊕◌ : F → F → F
  ◌⊕◌ = f.add

  abbrev pub ◌⊖◌ : F → F → F
  ◌⊖◌ = f.sub

  abbrev pub ◌⊗◌ : F → F → F
  ◌⊗◌ = f.mul

  abbrev pub ◌⊘◌ : F → F → F
  ◌⊘◌ = f.div

  abbrev pub ◌≤?◌ : F → F → Bool
  ◌≤?◌ = f.le

  abbrev pub ◌<?◌ : F → F → Bool
  ◌<?◌ = f.lt

  abbrev pub ◌≥?◌ : F → F → Bool
  x ≥? y = f.le y x

  abbrev pub ◌>?◌ : F → F → Bool
  x >? y = f.lt y x

  abbrev pub ◌=?◌ : F → F → Bool
  ◌=?◌ = f.eq

  abbrev pub lit : ℕ → ℕ → F
  lit = f.lit

  abbrev pub neg : F → F
  neg = f.neg

  -- `round(x, k)`
  abbrev pub round : F → ℕ → F
  round = f.round

  -- `max(x, y)` and `min(x, y)`: the first of two equals
  abbrev pub max : F → F → F
  max x y = if y >? x then y else x

  abbrev pub min : F → F → F
  min x y = if y <? x then y else x

  -- a float as a condition: `if x`
  abbrev pub truthy : F → Bool
  truthy x = not (x =? lit 0 0)

  -- `o or d`, where `o` may be None
  abbrev pub or_else : Option F → F → F
  or_else none d = d
  or_else (some x) d = if truthy x then x else d

  -- `bool(o)`, where `o` may be None
  abbrev pub is_truthy : Option F → Bool
  is_truthy none = Bool.false
  is_truthy (some x) = truthy x

-- The order of floats that are not NaN.
pub record IsOrdered (F : Type 0) ⦃f : Float F⦄ : Type 0 where
  pub le_refl : (x : F) → (x ≤? x) ≡ true
  pub le_trans : (x y z : F) → (x ≤? y) ≡ true → (y ≤? z) ≡ true → (x ≤? z) ≡ true
  pub le_total : (x y : F) → ((x ≤? y) ≡ true) ⊎ ((y ≤? x) ≡ true)
  pub lt_not_le : (x y : F) → (x <? y) ≡ not (y ≤? x)
  pub eq_both_le : (x y : F) → (x =? y) ≡ ((x ≤? y) && (y ≤? x))

-- `round` to a fixed number of digits is monotone, and does nothing to what is rounded already.
pub record IsRounding (F : Type 0) ⦃f : Float F⦄ : Type 0 where
  pub round_mono : (x y : F) (k : ℕ) → (x ≤? y) ≡ true → (round x k ≤? round y k) ≡ true
  pub round_again : (x : F) (k : ℕ) → round (round x k) k ≡ round x k
