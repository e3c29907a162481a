-- ===== src/Float/Fixed.antt =====
-- A concrete `Float`: fixed-point numbers in millionths, cut off towards zero. The witnesses use it,
-- and it shows that the laws of the floats can be met.
use Prim.Native.Nat.{◌^◌}
use native.Mathlib.Nat.{
  div-mul-le_self, mul-div_cancel, le-div_iff_mul-le, div-zero, zero-div, mul-le-mul, le_refl,
}
use stock_graph_analyzer.Base.{
  ℕ, zero, suc, ◌+◌, ◌*◌, ◌/◌, ◌≤◌, ◌≡◌, refl, ap, ◌∙◌, true, ◌&&◌, arith,
}
use stock_graph_analyzer.Base.Int.{ℤ, pos, negsuc, pos_part, neg_part, ◌+ℤ◌, ◌-ℤ◌, leb_ℤ, ltb_ℤ}
use stock_graph_analyzer.Float.{Float, IsOrdered, IsRounding}

abbrev pub scale : ℕ
scale = 1_000_000

-- rounding down to a multiple of u
unfoldable pub floor_to : ℕ → ℕ → ℕ
floor_to u n = n / u * u

abbrev pub negate : ℕ → ℤ
negate zero = pos 0
negate (suc n) = negsuc n

unfoldable pub round_to : ℕ → ℤ → ℤ
unfolding floor_to
round_to u (pos n) = pos (floor_to u n)
round_to u (negsuc n) = negate (floor_to u (suc n))

floor_to-zero : (u : ℕ) → floor_to u 0 ≡ 0
unfolding floor_to
floor_to-zero u = omega (arith, ap (λ (q : ℕ). q * u) (zero-div u))

round_to-negate : (u n : ℕ) → round_to u (negate n) ≡ negate (floor_to u n)
unfolding round_to
round_to-negate u zero = ground (arith, floor_to-zero u)
round_to-negate u (suc n) = refl

floor_to_mono : (u : ℕ) {m n : ℕ} → m ≤ n → floor_to u m ≤ floor_to u n
unfolding floor_to
floor_to_mono zero h = rw (div-zero) (omega arith)
floor_to_mono (suc u) {m} {n} h =
    let fits : m / suc u * suc u ≤ n = omega (arith, div-mul-le_self m (suc u)) in
    mul-le-mul ((le-div_iff_mul-le (omega arith)).1 fits) (le_refl (suc u))

floor_to_twice : (u n : ℕ) → floor_to u (floor_to u n) ≡ floor_to u n
unfolding floor_to
floor_to_twice zero n = omega arith
floor_to_twice (suc u) n = ap (λ (q : ℕ). q * suc u) (mul-div_cancel (n / suc u) (omega arith))

abbrev magnitude : ℤ → ℕ
magnitude x = pos_part x + neg_part x

-- the quotient or product `n` with the sign of x times the sign of y
abbrev with_signs : ℤ → ℤ → ℕ → ℤ
with_signs (pos _) (pos _) n = pos n
with_signs (pos _) (negsuc _) n = negate n
with_signs (negsuc _) (pos _) n = negate n
with_signs (negsuc _) (negsuc _) n = pos n

instance abbrev pub fixed_float : Float ℤ
fixed_float = record {
  lit = λ n k. pos (n * scale / 10 ^ k);
  neg = λ x. pos 0 -ℤ x;
  add = ◌+ℤ◌;
  sub = ◌-ℤ◌;
  mul = λ x y. with_signs x y (magnitude x * magnitude y / scale);
  div = λ x y. with_signs x y (magnitude x * scale / magnitude y);
  le = leb_ℤ;
  lt = ltb_ℤ;
  eq = λ x y. leb_ℤ x y && leb_ℤ y x;
  round = λ x k. round_to (scale / 10 ^ k) x;
}

pub Fixed-IsOrdered : IsOrdered ℤ
Fixed-IsOrdered = record {
  le_refl = λ x. ground arith;
  le_trans = λ x y z. ground arith;
  le_total = λ x y. ground arith;
  lt_not_le = λ x y. ground arith;
  eq_both_le = λ x y. refl;
}

le-negate : (a b : ℕ) → a ≤ b → leb_ℤ (negate b) (negate a) ≡ true
le-negate zero zero h = refl
le-negate zero (suc b) h = ground arith
le-negate (suc a) zero h = ground arith
le-negate (suc a) (suc b) h = ground arith

negate-le-pos : (a b : ℕ) → leb_ℤ (negate a) (pos b) ≡ true
negate-le-pos zero b = ground arith
negate-le-pos (suc a) b = ground arith

round_to_mono : (u : ℕ) (x y : ℤ) → leb_ℤ x y ≡ true → leb_ℤ (round_to u x) (round_to u y) ≡ true
unfolding round_to
round_to_mono u (pos m) (pos n) h = ground (arith, floor_to_mono u {m = m} {n = n})
round_to_mono u (pos m) (negsuc n) h = ground arith
round_to_mono u (negsuc m) (pos n) h = negate-le-pos (floor_to u (suc m)) (floor_to u n)
round_to_mono u (negsuc m) (negsuc n) h =
    le-negate (floor_to u (suc n)) (floor_to u (suc m))
      (floor_to_mono u {m = suc n} {n = suc m} (ground arith))

round_to_twice : (u : ℕ) (x : ℤ) → round_to u (round_to u x) ≡ round_to u x
unfolding round_to
round_to_twice u (pos n) = ap pos (floor_to_twice u n)
round_to_twice u (negsuc n) =
    round_to-negate u (floor_to u (suc n)) ∙ ap negate (floor_to_twice u (suc n))

pub Fixed-IsRounding : IsRounding ℤ
Fixed-IsRounding = record {
  round_mono = λ x y k. round_to_mono (scale / 10 ^ k) x y;
  round_again = λ x k. round_to_twice (scale / 10 ^ k) x;
}
