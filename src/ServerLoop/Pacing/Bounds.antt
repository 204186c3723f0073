-- ===== src/ServerLoop/Pacing/Bounds.antt =====
-- How long the loop at a target frame rate sleeps.
use native.Mathlib.Nat.{le-div_iff_mul-le, div-mul-le_self, mul-le-mul, le_refl, le_trans}
use rehlds_m.Base.{
  ℕ, ◌*◌, ◌/◌, ◌^◌, ◌≤◌, ◌<◌, ◌≡◌, subst, Bool-cases, inl, inr, List, [], ◌∷◌, ◌++◌, arith,
}
use rehlds_m.Base.Int.{ℤ, pos, negsuc, ◌-ℤ◌, ◌/ℤ◌, ◌≤ℤ◌, max_ℤ, leb_ℤ, abs, -ℤ_parts, max_ℤ_cases}
use rehlds_m.ServerLoop.{Loop}
use rehlds_m.ServerLoop.Pacing.{
  Double, Platform, Frame, Paced, started, is_zero, calculate_adaptive_smoothing_coefficient,
  smoothed, target_sleep_duration, sleep_duration, paced_frame, paced_frames, run_paced,
}

-- Arithmetic as IEEE 754 and the standard state it for finite numbers: operations are monotonic,
-- products and sums keep signs, 1 is neutral, and `exp` of what is not positive lies from 0 to 1.
-- An `int` is held exactly. What is not negative added back to a difference leaves at least 0.
pub record IsIeee (d : Double) : Type 1 where
  pub Le : d.Carrier → d.Carrier → Type 0
  pub trans : (x y z : d.Carrier) → Le x y → Le y z → Le x z
  pub of_int_mono : (a b : ℤ) → a ≤ℤ b → Le (d.of_int a) (d.of_int b)
  pub truncate_nonneg : (x : d.Carrier) → Le (d.of_int (pos 0)) x → pos 0 ≤ℤ d.truncate x
  pub add_mono : (x y z : d.Carrier) → Le y z → Le (d.add x y) (d.add x z)
  pub add_zero : (x : d.Carrier) → d.add x (d.of_int (pos 0)) ≡ x
  pub add_nonneg :
      (x y : d.Carrier)
      → Le (d.of_int (pos 0)) x
      → Le (d.of_int (pos 0)) y
      → Le (d.of_int (pos 0)) (d.add x y)
  pub add_sub_nonneg :
      (x y : d.Carrier) → Le (d.of_int (pos 0)) y → Le (d.of_int (pos 0)) (d.add x (d.sub y x))
  pub sub_nonneg : (x y : d.Carrier) → Le y x → Le (d.of_int (pos 0)) (d.sub x y)
  pub sub_nonpos : (x y : d.Carrier) → Le x y → Le (d.sub x y) (d.of_int (pos 0))
  pub mul_nonneg :
      (x y : d.Carrier)
      → Le (d.of_int (pos 0)) x
      → Le (d.of_int (pos 0)) y
      → Le (d.of_int (pos 0)) (d.mul x y)
  pub mul_nonpos :
      (x y : d.Carrier)
      → Le x (d.of_int (pos 0))
      → Le (d.of_int (pos 0)) y
      → Le (d.mul x y) (d.of_int (pos 0))
  pub mul_antitone :
      (x y z : d.Carrier) → Le x (d.of_int (pos 0)) → Le y z → Le (d.mul x z) (d.mul x y)
  pub mul_one : (x : d.Carrier) → d.mul x (d.of_int (pos 1)) ≡ x
  pub exp_nonneg : (x : d.Carrier) → Le (d.of_int (pos 0)) (d.exp x)
  pub exp_le_one : (x : d.Carrier) → Le x (d.of_int (pos 0)) → Le (d.exp x) (d.of_int (pos 1))
  pub mul_mono : (x y z : d.Carrier) → Le (d.of_int (pos 0)) x → Le y z → Le (d.mul x y) (d.mul x z)
  pub truncate_mono : (x y : d.Carrier) → Le x y → d.truncate x ≤ℤ d.truncate y
  pub truncate-of_int : (n : ℕ) → n < 2 ^ 31 → d.truncate (d.of_int (pos n)) ≡ pos n
  pub factor_ge_one : Le (d.of_int (pos 1)) d.fps_increase_factor
  pub slow_nonneg : Le (d.of_int (pos 0)) d.slow_smoothing_coefficient
  pub slow_le_one : Le d.slow_smoothing_coefficient (d.of_int (pos 1))

-- A frame takes at least the time that it is to sleep.
abbrev pub SleepsLong : List Frame → Type 0
SleepsLong [] = Unit {0}
SleepsLong (frame ∷ frames) = ((s : ℤ) → s ≤ℤ frame.measured s) × SleepsLong frames

-- Every sleep is at least the least of the platform, and at most that or the target.
abbrev pub AreBounded : Platform → ℤ → List ℤ → Type 0
AreBounded platform target [] = Unit {0}
AreBounded platform target (s ∷ ss) =
    (pos platform.least_sleep ≤ℤ s)
    × (s ≤ℤ max_ℤ (pos platform.least_sleep) target)
    × AreBounded platform target ss

-- What is at least both is at least the larger.
max_ℤ_le : (a b c : ℤ) → a ≤ℤ c → b ≤ℤ c → max_ℤ a b ≤ℤ c
unfolding max_ℤ
max_ℤ_le a b c h k = elim (Bool-cases (leb_ℤ b a)) [ inl e ↦ rw e h | inr e ↦ rw e k ]

AreBounded-append :
    (platform : Platform) (target s : ℤ) (ss : List ℤ)
    → AreBounded platform target ss
    → pos platform.least_sleep ≤ℤ s
    → s ≤ℤ max_ℤ (pos platform.least_sleep) target
    → AreBounded platform target (ss ++ (s ∷ []))
AreBounded-append platform target s [] h l u = (l, u, tt)
AreBounded-append platform target s (x ∷ ss) (a, b, h) l u =
    (a, b, AreBounded-append platform target s ss h l u)

quotient_le : (m : ℤ) (n : ℕ) → 0 < n → pos n ≤ℤ m → pos (10 ^ 9) /ℤ m ≤ℤ pos (10 ^ 9 / n)
unfolding ◌/ℤ◌
quotient_le (pos m) n k h =
    let q = 10 ^ 9 / m in
    let less : q ≤ 10 ^ 9 / n =
      (le-div_iff_mul-le k).1
        (le_trans (mul-le-mul (le_refl q) (omega arith)) (div-mul-le_self (10 ^ 9) m)) in
    omega (arith, less)
quotient_le (negsuc m) n k h = absurd (omega arith)

module _ (d : Double) (ieee : IsIeee d) where
  open d use {of_int, add, sub, mul, exp, slow_smoothing_coefficient, fps_increase_factor}
  open ieee use {
    Le, trans, of_int_mono, truncate_nonneg, add_mono, add_zero, add_nonneg, add_sub_nonneg,
    sub_nonneg, sub_nonpos, mul_nonneg, mul_nonpos, mul_antitone, mul_one, exp_nonneg, exp_le_one,
    slow_nonneg, slow_le_one, mul_mono, truncate_mono, truncate-of_int, factor_ge_one,
  }

  blend_bounds :
      (e : d.Carrier)
      → Le (of_int (pos 0)) e
      → Le e (of_int (pos 1))
      → let blend =
          add (of_int (pos 1)) (mul (sub slow_smoothing_coefficient (of_int (pos 1))) e) in
        Le (of_int (pos 0)) blend × Le blend (of_int (pos 1))
  blend_bounds e l u =
      let one = of_int (pos 1) in
      let fall = sub slow_smoothing_coefficient one in
      let down = sub_nonpos slow_smoothing_coefficient one slow_le_one in
      (
        trans (of_int (pos 0)) (add one fall) (add one (mul fall e))
            (add_sub_nonneg one slow_smoothing_coefficient slow_nonneg)
            (add_mono one fall (mul fall e)
              (subst (λ x. Le x (mul fall e)) (mul_one fall) (mul_antitone fall e one down u))),
        subst (Le (add one (mul fall e))) (add_zero one)
            (add_mono one (mul fall e) (of_int (pos 0)) (mul_nonpos fall e down l)),
      )

  coefficient_bounds :
      (duration ama : ℤ)
      → Le (of_int (pos 0)) (calculate_adaptive_smoothing_coefficient d duration ama)
        × Le (calculate_adaptive_smoothing_coefficient d duration ama) (of_int (pos 1))
  unfolding calculate_adaptive_smoothing_coefficient
  coefficient_bounds duration ama =
      let t = abs ((duration -ℤ ama) /ℤ ama) in
      let x = of_int (pos 0 -ℤ t) in
      elim (Bool-cases (is_zero d ama)) [
        | inl e ↦
            rw e
              (of_int_mono (pos 0) (pos 1) (omega arith), of_int_mono (pos 1) (pos 1) (omega arith))
        | inr e ↦ rw e (
            blend_bounds (exp x) (exp_nonneg x)
              (exp_le_one x (of_int_mono (pos 0 -ℤ t) (pos 0) (omega (arith, -ℤ_parts (pos 0) t)))))
      ]

  -- Of durations that are not negative, neither is the average.
  smoothed_nonneg :
      (duration ama : ℤ) → pos 0 ≤ℤ duration → pos 0 ≤ℤ ama → pos 0 ≤ℤ smoothed d duration ama
  unfolding smoothed
  smoothed_nonneg duration ama h k =
      let alpha = calculate_adaptive_smoothing_coefficient d duration ama in
      let (l, u) = coefficient_bounds duration ama in
      truncate_nonneg
        (add (mul alpha (of_int duration)) (mul (sub (of_int (pos 1)) alpha) (of_int ama)))
        (add_nonneg (mul alpha (of_int duration)) (mul (sub (of_int (pos 1)) alpha) (of_int ama))
          (mul_nonneg alpha (of_int duration) l (of_int_mono (pos 0) duration h))
          (mul_nonneg (sub (of_int (pos 1)) alpha) (of_int ama)
            (sub_nonneg (of_int (pos 1)) alpha u) (of_int_mono (pos 0) ama k)))

  -- The average stays at least 0, and the sleep of a frame is in range.
  paced_frame-AreBounded :
      (platform : Platform) (target top : ℤ) (frame : Frame) (p : Paced)
      → target ≤ℤ top
      → ((s : ℤ) → s ≤ℤ frame.measured s)
      → pos 0 ≤ℤ p.ama_duration
      → AreBounded platform top p.sleeps
      → (pos 0 ≤ℤ (paced_frame d platform target frame p).ama_duration)
        × AreBounded platform top (paced_frame d platform target frame p).sleeps
  unfolding paced_frame sleep_duration
  paced_frame-AreBounded platform target top frame p t long k b =
      let least = pos platform.least_sleep in
      let s = max_ℤ least (target -ℤ p.ama_duration) in
      let (l, r, which) = max_ℤ_cases least (target -ℤ p.ama_duration) in
      let (l', r', which') = max_ℤ_cases least top in
      (
        smoothed_nonneg (frame.measured s -ℤ s) p.ama_duration
            (omega (arith, long s, -ℤ_parts (frame.measured s) s)) k,
        AreBounded-append platform top s p.sleeps b l (
            max_ℤ_le least (target -ℤ p.ama_duration) (max_ℤ least top) l'
              (omega (arith, -ℤ_parts target p.ama_duration, k, r', t))),
      )

  paced_frames-AreBounded :
      (platform : Platform) (target top : ℤ) (frames : List Frame) (p : Paced)
      → target ≤ℤ top
      → SleepsLong frames
      → pos 0 ≤ℤ p.ama_duration
      → AreBounded platform top p.sleeps
      → (pos 0 ≤ℤ (paced_frames d platform target frames p).ama_duration)
        × AreBounded platform top (paced_frames d platform target frames p).sleeps
  unfolding paced_frames
  paced_frames-AreBounded platform target top [] p t h k b = (k, b)
  paced_frames-AreBounded platform target top (frame ∷ frames) p t (long, h) k b =
      let (k', b') = paced_frame-AreBounded platform target top frame p t long k b in
      paced_frames-AreBounded platform target top frames (paced_frame d platform target frame p) t h
        k' b'

  -- The factor makes no rate smaller, so that the division is not by 0.
  target_sleep_duration-le :
      (fps : ℕ)
      → 0 < fps
      → fps ≤ 2 * 10 ^ 9
      → target_sleep_duration d (pos fps) ≤ℤ pos (10 ^ 9 / fps)
  unfolding target_sleep_duration
  target_sleep_duration-le fps k h =
      let rate = of_int (pos fps) in
      quotient_le (d.truncate (mul rate fps_increase_factor)) fps k (
        subst (λ t. t ≤ℤ d.truncate (mul rate fps_increase_factor))
          (truncate-of_int fps (omega arith))
          (truncate_mono rate (mul rate fps_increase_factor) (
            subst (λ x. Le x (mul rate fps_increase_factor)) (mul_one rate)
              (mul_mono rate (of_int (pos 1)) fps_increase_factor
                (of_int_mono (pos 0) (pos fps) (omega arith)) factor_ge_one))))

  -- At a rate above 0 and up to 2 000 000 000, in arithmetic as IEEE 754 has it, and where each frame takes at least the
  -- time that it is to sleep: after any frames the average is not negative, and every sleep that was
  -- asked for is at least the least of the platform (1 ns on Linux, 100 ns on Windows), and at most
  -- that or the time of a frame at the rate.
  pub run_paced-AreBounded :
      (platform : Platform) (fps : ℕ) (frames : List Frame) (l : Loop)
      → 0 < fps
      → fps ≤ 2 * 10 ^ 9
      → SleepsLong frames
      → (pos 0 ≤ℤ (run_paced d platform (pos fps) frames l).ama_duration)
        × AreBounded platform (pos (10 ^ 9 / fps)) (run_paced d platform (pos fps) frames l).sleeps
  unfolding run_paced
  run_paced-AreBounded platform fps frames l k h long =
      paced_frames-AreBounded platform (target_sleep_duration d (pos fps)) (pos (10 ^ 9 / fps))
        frames (started l) (target_sleep_duration-le fps k h) long (omega arith) tt
