-- ===== src/ServerLoop/Pacing/Example.antt =====
-- Arithmetic that has the laws: whole numbers, to which 0.1 and 1.015 and the values of `exp` are
-- rounded.
use native.Mathlib.Nat.{mul-le-mul, le_refl}
use rehlds_m.Base.{zero, suc, ◌*◌, ◌≤◌, ◌≡◌, refl, arith}
use rehlds_m.Base.Int.{ℤ, pos, negsuc, ◌+ℤ◌, ◌-ℤ◌, ◌≤ℤ◌, negated, -ℤ_parts}
use rehlds_m.ServerLoop.Pacing.{Double}
use rehlds_m.ServerLoop.Pacing.Bounds.{IsIeee}

unfoldable pub times : ℤ → ℤ → ℤ
times (pos a) (pos b) = pos (a * b)
times (pos a) (negsuc b) = negated (a * suc b)
times (negsuc a) (pos b) = negated (suc a * b)
times (negsuc a) (negsuc b) = pos (suc a * suc b)

abbrev rounded_exp : ℤ → ℤ
rounded_exp (pos n) = pos 1
rounded_exp (negsuc n) = pos 0

abbrev pub whole_numbers : Double
whole_numbers = record {
  Carrier = ℤ;
  of_int = λ a. a;
  truncate = λ a. a;
  add = ◌+ℤ◌;
  sub = ◌-ℤ◌;
  mul = times;
  exp = rounded_exp;
  slow_smoothing_coefficient = pos 0;
  fps_increase_factor = pos 1;
}

add_mono : (x y z : ℤ) → y ≤ℤ z → x +ℤ y ≤ℤ x +ℤ z
unfolding ◌+ℤ◌
add_mono x y z h = ground arith

add_zero : (x : ℤ) → x +ℤ pos 0 ≡ x
unfolding ◌+ℤ◌
add_zero x = ground arith

add_nonneg : (x y : ℤ) → pos 0 ≤ℤ x → pos 0 ≤ℤ y → pos 0 ≤ℤ x +ℤ y
unfolding ◌+ℤ◌
add_nonneg x y h k = ground arith

add_sub_nonneg : (x y : ℤ) → pos 0 ≤ℤ y → pos 0 ≤ℤ x +ℤ (y -ℤ x)
unfolding ◌+ℤ◌ ◌-ℤ◌
add_sub_nonneg x y h = ground arith

mul_nonneg : (x y : ℤ) → pos 0 ≤ℤ x → pos 0 ≤ℤ y → pos 0 ≤ℤ times x y
unfolding times
mul_nonneg (pos a) (pos b) h k = omega arith
mul_nonneg (pos a) (negsuc b) h k = absurd (omega arith)
mul_nonneg (negsuc a) y h k = absurd (omega arith)

mul_nonpos : (x y : ℤ) → x ≤ℤ pos 0 → pos 0 ≤ℤ y → times x y ≤ℤ pos 0
unfolding times
mul_nonpos (pos zero) (pos b) h k = omega arith
mul_nonpos (pos (suc a)) (pos b) h k = absurd (omega arith)
mul_nonpos (negsuc a) (pos b) h k = ground arith
mul_nonpos x (negsuc b) h k = absurd (omega arith)

mul_mono : (x y z : ℤ) → pos 0 ≤ℤ x → y ≤ℤ z → times x y ≤ℤ times x z
unfolding times
mul_mono (pos a) (pos b) (pos c) h k = omega (arith, mul-le-mul (le_refl a) k)
mul_mono (pos a) (pos b) (negsuc c) h k = absurd (omega arith)
mul_mono (pos a) (negsuc b) (pos c) h k = ground arith
mul_mono (pos a) (negsuc b) (negsuc c) h k =
    let less : a * suc c ≤ a * suc b = mul-le-mul (le_refl a) (omega arith) in ground arith
mul_mono (negsuc a) y z h k = absurd (omega arith)

mul_antitone : (x y z : ℤ) → x ≤ℤ pos 0 → y ≤ℤ z → times x z ≤ℤ times x y
unfolding times
mul_antitone (pos zero) (pos b) (pos c) h k = omega arith
mul_antitone (pos zero) (pos b) (negsuc c) h k = ground arith
mul_antitone (pos zero) (negsuc b) (pos c) h k = ground arith
mul_antitone (pos zero) (negsuc b) (negsuc c) h k = ground arith
mul_antitone (pos (suc a)) y z h k = absurd (omega arith)
mul_antitone (negsuc a) (pos b) (pos c) h k =
    let less : suc a * b ≤ suc a * c = mul-le-mul (le_refl (suc a)) (omega arith) in ground arith
mul_antitone (negsuc a) (pos b) (negsuc c) h k = absurd (omega arith)
mul_antitone (negsuc a) (negsuc b) (pos c) h k = ground arith
mul_antitone (negsuc a) (negsuc b) (negsuc c) h k =
    let less : suc a * suc c ≤ suc a * suc b = mul-le-mul (le_refl (suc a)) (omega arith) in
    omega arith

mul_one : (x : ℤ) → times x (pos 1) ≡ x
unfolding times
mul_one x = ground arith

exp_bounds : (x : ℤ) → (pos 0 ≤ℤ rounded_exp x) × (rounded_exp x ≤ℤ pos 1)
exp_bounds (pos n) = omega arith
exp_bounds (negsuc n) = omega arith

pub whole_numbers-IsIeee : IsIeee whole_numbers
whole_numbers-IsIeee = record {
  Le = ◌≤ℤ◌;
  trans = λ x y z h k. omega arith;
  of_int_mono = λ a b h. h;
  truncate_nonneg = λ x h. h;
  add_mono = add_mono;
  add_zero = add_zero;
  add_nonneg = add_nonneg;
  add_sub_nonneg = add_sub_nonneg;
  sub_nonneg = λ x y h. omega (arith, -ℤ_parts x y);
  sub_nonpos = λ x y h. omega (arith, -ℤ_parts x y);
  mul_nonneg = mul_nonneg;
  mul_nonpos = mul_nonpos;
  mul_antitone = mul_antitone;
  mul_one = mul_one;
  exp_nonneg = λ x. (exp_bounds x).0;
  exp_le_one = λ x h. (exp_bounds x).1;
  mul_mono = mul_mono;
  truncate_mono = λ x y h. h;
  truncate-of_int = λ n h. refl;
  factor_ge_one = omega arith;
  slow_nonneg = omega arith;
  slow_le_one = omega arith;
}
