-- ===== src/CircularBuffer/Window.antt =====
-- The elements that a ring of `n` places holds from a place on, going round.
use native.Mathlib.Nat.{mod-lt, mod-eq_of_lt, mod-add-mod}
use rehlds_m.Base.{
  ℕ, zero, suc, ◌+◌, ◌-◌, ◌%◌, ◌<◌, ◌≡◌, refl, sym, ap, ap₂, ◌∙◌, ◌≢◌, List, [], ◌∷◌, ◌++◌, arith,
  length, get_or, set, drop_last, get_or-set_self, get_or-set_ne, drop, drop_last-append,
}
use rehlds_m.Base.Mod.{add-mod-ne}

module _ {ℓ} {A : Type ℓ} (n : ℕ) (d : A) where
  -- `count` elements from index `j`, which is not reduced.
  abbrev pub window : List A → ℕ → ℕ → List A
  window buf j zero = []
  window buf j (suc count) = get_or buf (j % n) d ∷ window buf (suc j) count

  pub length-window : (buf : List A) (j count : ℕ) → length (window buf j count) ≡ count
  length-window buf j zero = refl
  length-window buf j (suc count) = ap suc (length-window buf (suc j) count)

  -- Only the start's remainder counts.
  pub window-mod :
      (buf : List A) (i j count : ℕ) → i % n ≡ j % n → window buf i count ≡ window buf j count
  window-mod buf i j zero h = refl
  window-mod buf i j (suc count) h =
      ap₂ (λ k r. get_or buf k d ∷ r) h (window-mod buf (suc i) (suc j) count shifted)
    where
      shifted : suc i % n ≡ suc j % n
      shifted =
          ap (λ k. k % n) (omega arith)
          ∙ sym (mod-add-mod i n 1)
          ∙ ap (λ k. (k + 1) % n) h
          ∙ mod-add-mod j n 1
          ∙ ap (λ k. k % n) (omega arith)

  pub window-snoc :
      (buf : List A) (j count : ℕ)
      → window buf j (suc count) ≡ window buf j count ++ (get_or buf ((j + count) % n) d ∷ [])
  window-snoc buf j zero = ap (λ k. get_or buf (k % n) d ∷ []) (omega arith)
  window-snoc buf j (suc count) =
      ap (λ r. get_or buf (j % n) d ∷ r)
        (window-snoc buf (suc j) count
          ∙ ap (λ k. window buf (suc j) count ++ (get_or buf (k % n) d ∷ [])) (omega arith))

  -- A write outside a window leaves it.
  pub window-set_ne :
      (buf : List A) (p j count : ℕ) (x : A)
      → ((k : ℕ) → k < count → p ≢ (j + k) % n)
      → window (set buf p x) j count ≡ window buf j count
  window-set_ne buf p j zero x h = refl
  window-set_ne buf p j (suc count) x h =
      ap₂ ◌∷◌
        (get_or-set_ne buf p (j % n) x d
          (λ e. h 0 (omega arith) (e ∙ ap (λ k. k % n) (omega arith))))
        (window-set_ne buf p (suc j) count x
          (λ k lt e. h (suc k) (omega arith) (e ∙ ap (λ m. m % n) (omega arith))))

  -- The entry at an index below the count.
  pub get_or-window :
      (buf : List A) (j count i : ℕ)
      → i < count
      → get_or (window buf j count) i d ≡ get_or buf ((j + i) % n) d
  get_or-window buf j zero i h = absurd (omega arith)
  get_or-window buf j (suc count) zero h = ap (λ k. get_or buf (k % n) d) (omega arith)
  get_or-window buf j (suc count) (suc i) h =
      get_or-window buf (suc j) count i (omega arith) ∙ ap (λ k. get_or buf (k % n) d) (omega arith)

module _ {ℓ} {A : Type ℓ} (n : ℕ) (d : A) where
  -- A write at the place behind a window extends it at the end.
  pub window-set_end :
      (buf : List A) (p j count : ℕ) (x : A)
      → length buf ≡ n
      → count < n
      → p ≡ (j + count) % n
      → window n d (set buf p x) j (suc count) ≡ window n d buf j count ++ (x ∷ [])
  window-set_end buf p j count x len lt e =
      window-snoc n d (set buf p x) j count
      ∙ ap₂ (λ w y. w ++ (y ∷ [])) (window-set_ne n d buf p j count x apart) read
    where
      apart : (k : ℕ) → k < count → p ≢ (j + k) % n
      apart k h q =
          add-mod-ne n (j + k) (count - k) (omega arith) (omega arith)
            (ap (λ m. m % n) (omega arith) ∙ sym e ∙ q)

      small : (j + count) % n < n
      small = mod-lt (j + count) (omega arith)

      inside : p < length buf
      inside = omega (arith, e, len, small)

      read : get_or (set buf p x) ((j + count) % n) d ≡ x
      read = ap (λ k. get_or (set buf p x) k d) (sym e) ∙ get_or-set_self buf p x d inside

  -- A write at the place before a window extends it at the front.
  pub window-set_front :
      (buf : List A) (p j count : ℕ) (x : A)
      → length buf ≡ n
      → count < n
      → p < n
      → suc p % n ≡ j % n
      → window n d (set buf p x) p (suc count) ≡ x ∷ window n d buf j count
  window-set_front buf p j count x len lt hp e =
      ap₂ ◌∷◌ read (kept ∙ window-mod n d buf (suc p) j count e)
    where
      same : p % n ≡ p
      same = mod-eq_of_lt hp

      read : get_or (set buf p x) (p % n) d ≡ x
      read = ap (λ k. get_or (set buf p x) k d) same ∙ get_or-set_self buf p x d (omega arith)

      kept : window n d (set buf p x) (suc p) count ≡ window n d buf (suc p) count
      kept = window-set_ne n d buf p (suc p) count x (λ k h q.
          add-mod-ne n p (suc k) (omega arith) (omega arith)
            (ap (λ m. m % n) (omega arith) ∙ sym q ∙ sym same))

  -- All but the first, and all but the last.
  pub drop-window :
      (buf : List A) (i j count : ℕ)
      → suc i % n ≡ j % n
      → 0 < count
      → (m : ℕ) → m + 1 ≡ count
      → drop 1 (window n d buf i count) ≡ window n d buf j m
  drop-window buf i j zero e h m q = absurd (omega arith)
  drop-window buf i j (suc count) e h m q =
      window-mod n d buf (suc i) j count e ∙ ap (λ k. window n d buf j k) (omega arith)

  pub drop_last-window :
      (buf : List A) (j count m : ℕ)
      → m + 1 ≡ count
      → drop_last (window n d buf j count) ≡ window n d buf j m
  drop_last-window buf j count m q =
      ap (λ k. drop_last (window n d buf j k)) whole
      ∙ ap drop_last (window-snoc n d buf j m)
      ∙ drop_last-append (window n d buf j m) _
    where
      whole : count ≡ suc m
      whole = omega arith
