-- ===== src/Base/Mod.antt =====
-- Remainders by a variable, and unsigned arithmetic on the 32-bit `size_t`.
use Prim.Native.Nat.{ℕ, ◌+◌, ◌-◌, ◌%◌, ◌^◌, ◌≤◌, ◌<◌}
use mathlib.Core.Path.{◌≡◌, ◌∙◌}
use mathlib.Core.Logic.{◌≢◌, ◌⊎◌, inl, inr}
use native.Mathlib.Nat.{mod-lt, mod-eq_of_lt, mod-eq-sub-mod, mod-add-mod}
use native.Mathlib.Decide.{dec_lt}
use native.Mathlib.Omega.{arith}

-- The program is built for x86 only.
abbrev pub add_size : ℕ → ℕ → ℕ
add_size a b = (a + b) % 2 ^ 32

abbrev pub sub_size : ℕ → ℕ → ℕ
sub_size a b = (a + 2 ^ 32 - b) % 2 ^ 32

-- The remainder of a number below twice the modulus.
pub mod_cases : (x n : ℕ) → x < n + n → ((x < n) × (x % n ≡ x)) ⊎ ((n ≤ x) × (x % n ≡ x - n))
mod_cases x n h = elim (dec_lt x n) [
  | yes p ↦ inl (p, mod-eq_of_lt p)
  | no p ↦
      inr (omega arith, mod-eq-sub-mod {n = x} {m = n} (omega arith) ∙ mod-eq_of_lt (omega arith))
]

-- Fewer than `n` steps round a ring of `n` places do not come back to the start.
pub add-mod-ne : (n j k : ℕ) → 0 < k → k < n → (j + k) % n ≢ j % n
add-mod-ne n j k hk hn e =
    absurd (omega (arith, shifted, bound, mod_cases (j % n + k) n (omega arith)))
  where
    bound : j % n < n
    bound = mod-lt j (omega arith)

    shifted : (j % n + k) % n ≡ (j + k) % n
    shifted = mod-add-mod j n k
