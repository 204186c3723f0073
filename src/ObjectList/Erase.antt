-- ===== src/ObjectList/Erase.antt =====
-- The first occurrence of an object, and what erasing it does on both sides of a place.
use rehlds_m.Base.{
  ℕ, zero, suc, ◌+◌, ◌≤◌, ◌<◌, ◌≡◌, refl, ap, true, false, ◌==◌, none, some, List, [], ◌∷◌, length,
  take, drop, arith,
}
use rehlds_m.ObjectList.{find_index, erase_at}
use rehlds_m.ObjectList.Cursor.{mem, erase_first, before, from}

abbrev pub IsFirst : ℕ → List ℕ → ℕ → Type 0
IsFirst o [] i = ⊥
IsFirst o (x ∷ xs) zero = (x == o) ≡ true
IsFirst o (x ∷ xs) (suc i) = ((x == o) ≡ false) × IsFirst o xs i

pub find_index-some : (xs : List ℕ) (o i : ℕ) → find_index xs o ≡ some i → IsFirst o xs i
unfolding find_index
find_index-some [] o i e = cc
find_index-some (x ∷ xs) o zero e = ground arith
find_index-some (x ∷ xs) o (suc i) e = ground (arith, find_index-some xs o i)

pub find_index-none : (xs : List ℕ) (o : ℕ) → find_index xs o ≡ none → mem o xs ≡ false
unfolding find_index
find_index-none [] o e = refl
find_index-none (x ∷ xs) o e = ground (arith, find_index-none xs o)

pub IsFirst-mem : (o : ℕ) (xs : List ℕ) (i : ℕ) → IsFirst o xs i → mem o xs ≡ true
IsFirst-mem o [] i h = absurd h
IsFirst-mem o (x ∷ xs) zero h = ground arith
IsFirst-mem o (x ∷ xs) (suc i) h = ground (arith, IsFirst-mem o xs i h.1)

pub IsFirst-lt : (o : ℕ) (xs : List ℕ) (i : ℕ) → IsFirst o xs i → i < length xs
IsFirst-lt o [] i h = absurd h
IsFirst-lt o (x ∷ xs) zero h = omega arith
IsFirst-lt o (x ∷ xs) (suc i) h = omega (arith, IsFirst-lt o xs i h.1)

-- An occurrence among the first `n + 1`.
pub IsFirst-passed :
    (o : ℕ) (xs : List ℕ) (i n : ℕ)
    → IsFirst o xs i
    → i ≤ n
    → (mem o (take (suc n) xs) ≡ true)
      × (take n (erase_at xs i) ≡ erase_first o (take (suc n) xs))
      × (drop n (erase_at xs i) ≡ drop (suc n) xs)
IsFirst-passed o [] i n h le = absurd h
IsFirst-passed o (x ∷ xs) zero n h le = (ground arith, ground arith, refl)
IsFirst-passed o (x ∷ xs) (suc i) zero h le = absurd (omega arith)
IsFirst-passed o (x ∷ xs) (suc i) (suc n) h le =
    let (m, t, d) = IsFirst-passed o xs i n h.1 (omega arith) in
    (ground (arith, m), ground (arith, t), d)

-- An occurrence behind them.
pub IsFirst-pending :
    (o : ℕ) (xs : List ℕ) (i n : ℕ)
    → IsFirst o xs i
    → n ≤ i
    → (mem o (take n xs) ≡ false)
      × (mem o (drop n xs) ≡ true)
      × (take n (erase_at xs i) ≡ take n xs)
      × (drop n (erase_at xs i) ≡ erase_first o (drop n xs))
IsFirst-pending o [] i n h le = absurd h
IsFirst-pending o (x ∷ xs) zero zero h le = (refl, ground arith, refl, ground arith)
IsFirst-pending o (x ∷ xs) (suc i) zero h le =
    let (m, f, t, d) = IsFirst-pending o xs i zero h.1 (omega arith) in
    (refl, ground (arith, f), refl, ground (arith, d))
IsFirst-pending o (x ∷ xs) zero (suc n) h le = absurd (omega arith)
IsFirst-pending o (x ∷ xs) (suc i) (suc n) h le =
    let (m, f, t, d) = IsFirst-pending o xs i n h.1 (omega arith) in
    (ground (arith, m), f, ap (λ r. x ∷ r) t, d)

-- No occurrence at all.
pub mem-take-false :
    (o : ℕ) (xs : List ℕ) (n : ℕ)
    → mem o xs ≡ false
    → (mem o (take n xs) ≡ false) × (mem o (drop n xs) ≡ false)
mem-take-false o [] zero h = (refl, refl)
mem-take-false o [] (suc n) h = (refl, refl)
mem-take-false o (x ∷ xs) zero h = (refl, h)
mem-take-false o (x ∷ xs) (suc n) h = ground (arith, mem-take-false o xs n)

-- The two sides of the first occurrence.
pub IsFirst-split :
    (o : ℕ) (xs : List ℕ) (i : ℕ)
    → IsFirst o xs i
    → (take i xs ≡ before o xs) × (drop i xs ≡ from o xs)
IsFirst-split o [] i h = absurd h
IsFirst-split o (x ∷ xs) zero h = ground arith
IsFirst-split o (x ∷ xs) (suc i) h = ground (arith, IsFirst-split o xs i h.1)

pub length-erase_at : (xs : List ℕ) (i : ℕ) → i < length xs → length (erase_at xs i) + 1 ≡ length xs
length-erase_at [] i h = absurd (omega arith)
length-erase_at (x ∷ xs) zero h = omega arith
length-erase_at (x ∷ xs) (suc i) h = omega (arith, length-erase_at xs i (omega arith))
