-- ===== src/Float/Order.antt =====
-- The order of the floats: `max` and `min` are bounds.
use stock_graph_analyzer.Base.{◌≡◌, true, false, Bool-cases, inl, inr, arith}
use stock_graph_analyzer.Float.{Float, ◌≤?◌, ◌<?◌, max, min, IsOrdered}

module _ {F : Type 0} ⦃f : Float F⦄ (order : IsOrdered F) where
  pub le-not_lt : (x y : F) → (y <? x) ≡ false → (x ≤? y) ≡ true
  le-not_lt x y e = elim (Bool-cases (x ≤? y)) [
    | inl t ↦ t
    | inr u ↦ ground (arith, order.lt_not_le y x)
  ]

  pub le-lt : (x y : F) → (x <? y) ≡ true → (x ≤? y) ≡ true
  le-lt x y e = elim (order.le_total x y) [
    | inl t ↦ t
    | inr u ↦ ground (arith, order.lt_not_le x y)
  ]

  pub min-le : (x y : F) → (min x y ≤? x) ≡ true
  min-le x y = elim (Bool-cases (y <? x)) [
    | inl t ↦ rw t (le-lt y x t)
    | inr e ↦ rw e (order.le_refl x)
  ]

  pub min-le_right : (x y : F) → (min x y ≤? y) ≡ true
  min-le_right x y = elim (Bool-cases (y <? x)) [
    | inl t ↦ rw t (order.le_refl y)
    | inr e ↦ rw e (le-not_lt x y e)
  ]

  pub le-max : (x y : F) → (x ≤? max x y) ≡ true
  le-max x y = elim (Bool-cases (x <? y)) [
    | inl t ↦ rw t (le-lt x y t)
    | inr e ↦ rw e (order.le_refl x)
  ]

  pub le-max_right : (x y : F) → (y ≤? max x y) ≡ true
  le-max_right x y = elim (Bool-cases (x <? y)) [
    | inl t ↦ rw t (order.le_refl y)
    | inr e ↦ rw e (le-not_lt y x e)
  ]
