-- ===== src/CircularBuffer/Reads.antt =====
-- What `front`, `back`, `operator[]`, `full`, `empty` and `clear` mean for the sequence of the
-- elements, and runs of calls on a new buffer.
use native.Mathlib.Nat.{mod-eq_of_lt}
use mathlib.Core.Bool.{false≢true}
use rehlds_m.Base.{
  ℕ, suc, ◌+◌, ◌-◌, ◌%◌, ◌<◌, ◌≡◌, sym, ap, ◌∙◌, ◌↔◌, inl, inr, true, [], arith, length, get_or,
  last_or, last_or-append,
}
use rehlds_m.Base.Mod.{mod_cases}
use rehlds_m.CircularBuffer.{CircularBuffer, empty, full, index_before, size, front, back, elem_at}
use rehlds_m.CircularBuffer.Window.{window, get_or-window}
use rehlds_m.CircularBuffer.Inv.{IsValid, Fits, size-le, index_before_cases}
use rehlds_m.CircularBuffer.Refine.{contents, length-contents, size_cases}
use rehlds_m.CircularBuffer.Window.{window-snoc}

module _ {ℓ} {A : Type ℓ} (n : ℕ) (fits : Fits n) (d : A) {b : CircularBuffer A}
    (v : IsValid n b) where
  pub elem_at-contents : (i : ℕ) → i < size n b → elem_at n b i d ≡ get_or (contents n d b) i d
  unfolding elem_at
  elem_at-contents i h =
      ap (λ k. get_or b.buffer (k % n) d) (omega (arith, size-le n fits v))
      ∙ sym (get_or-window n d b.buffer b.tail (size n b) i h)

  front-contents : 0 < size n b → front n b d ≡ get_or (contents n d b) 0 d
  unfolding front
  front-contents h =
      ap (λ k. get_or b.buffer k d) start ∙ sym (get_or-window n d b.buffer b.tail (size n b) 0 h)
    where
      start : b.tail ≡ (b.tail + 0) % n
      start = sym (mod-eq_of_lt v.tail_in) ∙ ap (λ k. k % n) (omega arith)

  last_place : 0 < size n b → index_before n b.head ≡ (b.tail + (size n b - 1)) % n
  last_place h = elim (size_cases n fits v) [
    | inl (f, meet, s) ↦ omega (
      arith,
      index_before_cases n fits b.head v.head_in,
      mod_cases (b.tail + (size n b - 1)) n (omega arith),
    )
    | inr (f, small, e) ↦ omega (
      arith,
      e,
      index_before_cases n fits b.head v.head_in,
      mod_cases (b.tail + (size n b - 1)) n (omega arith),
      mod_cases (b.tail + size n b) n (omega arith),
    )
  ]

  pub back-contents : 0 < size n b → back n b d ≡ last_or (contents n d b) d
  unfolding back
  back-contents h =
      ap (λ k. get_or b.buffer k d) (last_place h)
      ∙ sym (last_or-append (window n d b.buffer b.tail (size n b - 1)) _ d)
      ∙ ap (λ q. last_or q d) (sym (window-snoc n d b.buffer b.tail (size n b - 1)))
      ∙ ap (λ k. last_or (window n d b.buffer b.tail k) d) whole
    where
      whole : suc (size n b - 1) ≡ size n b
      whole = omega arith

  -- Every read of a valid buffer that holds an element is of its sequence: `front` reads the oldest
  -- element, `back` the newest, and `operator[]` counts from the oldest.
  pub reads_contents :
      0 < size n b
      → (front n b d ≡ get_or (contents n d b) 0 d)
        × (back n b d ≡ last_or (contents n d b) d)
        × ((i : ℕ) → i < size n b → elem_at n b i d ≡ get_or (contents n d b) i d)
  reads_contents h = (front-contents h, back-contents h, elem_at-contents)

  contents_nil : (size n b ≡ 0) ↔ (contents n d b ≡ [])
  contents_nil = (
    (λ e. ap (λ k. window n d b.buffer b.tail k) e),
    (λ e. sym (length-contents n d b) ∙ ap length e),
  )

  empty-size : (empty b ≡ true) ↔ (size n b ≡ 0)
  unfolding empty size
  empty-size = ground arith

  full-size : (full b ≡ true) ↔ (size n b ≡ n)
  unfolding full
  full-size = elim (size_cases n fits v) [
    | inl (f, meet, s) ↦ ((λ _. s), (λ _. f))
    | inr (f, small, e) ↦ ((λ q. absurd (false≢true (sym f ∙ q))), (λ q. absurd (omega arith)))
  ]

  -- `size`, `empty` and `full` of a valid buffer count the elements of its sequence.
  pub counts_contents :
      (size n b ≡ length (contents n d b))
      × ((empty b ≡ true) ↔ (contents n d b ≡ []))
      × ((full b ≡ true) ↔ (length (contents n d b) ≡ n))
  counts_contents = (
    sym (length-contents n d b),
    ((λ e. contents_nil.0 (empty-size.0 e)), (λ e. empty-size.1 (contents_nil.1 e))),
    (
      (λ e. length-contents n d b ∙ full-size.0 e),
      (λ e. full-size.1 (sym (length-contents n d b) ∙ e)),
    ),
  )
