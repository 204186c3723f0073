-- ===== src/CircularBuffer/Inv.antt =====
-- The representation invariant of a circular buffer: indices in range, the array of its declared
-- length, and the flag set only where the two indices meet.
use rehlds_m.Base.{
  ℕ, suc, ◌+◌, ◌-◌, ◌%◌, ◌^◌, ◌≤◌, ◌<◌, ◌≡◌, ◌∙◌, ap, ◌⊎◌, inl, inr, false, arith, length,
  length-set, length-replicate,
}
use rehlds_m.Base.Mod.{add_size, sub_size, mod_cases}
use rehlds_m.CircularBuffer.{
  CircularBuffer, fresh, clear, index_before, index_after, push_front, push_back, pop_front,
  pop_back, size,
}

pub record IsValid {ℓ} {A : Type ℓ} (n : ℕ) (b : CircularBuffer A) : Type ℓ where
  pub storage : length b.buffer ≡ n
  pub head_in : b.head < n
  pub tail_in : b.tail < n
  pub met : (b.full_flag ≡ false) ⊎ (b.head ≡ b.tail)

-- The capacities that do not wrap: an object takes at most half of the address space.
abbrev pub Fits : ℕ → Type 0
Fits n = (0 < n) × (n ≤ 2 ^ 31)

module _ (n : ℕ) (fits : Fits n) where
  pub index_after_cases :
      (i : ℕ)
      → i < n
      → ((i + 1 < n) × (index_after n i ≡ i + 1)) ⊎ ((i + 1 ≡ n) × (index_after n i ≡ 0))
  index_after_cases i h =
      let e : add_size i 1 ≡ i + 1 = omega arith in
      elim (mod_cases (i + 1) n (omega arith)) [
        | inl p ↦ inl (p.0, ap (λ k. k % n) e ∙ p.1)
        | inr p ↦ inr (omega arith, ap (λ k. k % n) e ∙ p.1 ∙ omega arith)
      ]

  pub index_before_cases :
      (i : ℕ)
      → i < n
      → ((0 < i) × (index_before n i ≡ i - 1)) ⊎ ((i ≡ 0) × (index_before n i ≡ n - 1))
  index_before_cases i h =
      let e : sub_size (add_size i n) 1 ≡ i + n - 1 = omega arith in
      elim (mod_cases (i + n - 1) n (omega arith)) [
        | inl p ↦ inr (omega arith, ap (λ k. k % n) e ∙ p.1 ∙ omega arith)
        | inr p ↦ inl (omega arith, ap (λ k. k % n) e ∙ p.1 ∙ omega arith)
      ]

  pub suc-mod-index_after : (i : ℕ) → i < n → suc i % n ≡ index_after n i % n
  suc-mod-index_after i h = omega (
    arith,
    index_after_cases i h,
    mod_cases (suc i) n (omega arith),
    mod_cases (index_after n i) n (omega (arith, index_after_cases i h)),
  )

  pub suc-index_before-mod : (i : ℕ) → i < n → suc (index_before n i) % n ≡ i % n
  suc-index_before-mod i h = omega (
    arith,
    index_before_cases i h,
    mod_cases i n (omega arith),
    mod_cases (suc (index_before n i)) n (omega (arith, index_before_cases i h)),
  )

  pub index_after-lt : (i : ℕ) → i < n → index_after n i < n
  index_after-lt i h = omega (arith, index_after_cases i h)

  pub index_before-lt : (i : ℕ) → i < n → index_before n i < n
  index_before-lt i h = omega (arith, index_before_cases i h)

  -- Going round from the place behind `i` over all other places comes back to `i`.
  pub index_after-round : (i : ℕ) → i < n → i ≡ (index_after n i + (n - 1)) % n
  index_after-round i h = omega (
    arith,
    index_after_cases i h,
    mod_cases (index_after n i + (n - 1)) n (omega (arith, index_after-lt i h)),
  )

module _ {ℓ} {A : Type ℓ} (n : ℕ) (fits : Fits n) where
  pub fresh-IsValid : (d : A) → IsValid n (fresh n d)
  unfolding fresh
  fresh-IsValid d = ground (arith, length-replicate n d)

  pub push_back-IsValid : {b : CircularBuffer A} (x : A) → IsValid n b → IsValid n (push_back n b x)
  unfolding push_back
  push_back-IsValid {b} x v = ground (
    arith,
    length-set b.buffer b.head x,
    index_after_cases n fits b.head,
    index_after_cases n fits b.tail,
  )

  pub push_front-IsValid :
      {b : CircularBuffer A} (x : A) → IsValid n b → IsValid n (push_front n b x)
  unfolding push_front
  push_front-IsValid {b} x v = ground (
    arith,
    length-set b.buffer (index_before n b.tail) x,
    index_before_cases n fits b.head,
    index_before_cases n fits b.tail,
  )

  pub pop_front-IsValid : {b : CircularBuffer A} → IsValid n b → IsValid n (pop_front n b)
  unfolding pop_front
  pop_front-IsValid {b} v = ground (arith, index_after_cases n fits b.tail)

  pub pop_back-IsValid : {b : CircularBuffer A} → IsValid n b → IsValid n (pop_back n b)
  unfolding pop_back
  pop_back-IsValid {b} v = ground (arith, index_before_cases n fits b.head)

  pub clear-IsValid : {b : CircularBuffer A} → IsValid n b → IsValid n (clear b)
  unfolding clear
  clear-IsValid {b} v = ground arith

  pub size-le : {b : CircularBuffer A} → IsValid n b → size n b ≤ n
  unfolding size
  size-le {b} v = ground arith
