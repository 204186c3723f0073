-- ===== src/CircularBuffer/Refine.antt =====
-- A valid circular buffer behaves as the bounded sequence of the elements that it holds.
use rehlds_m.Base.{
  ℕ, suc, ◌+◌, ◌-◌, ◌%◌, ◌≤◌, ◌<◌, ◌≡◌, refl, sym, ap, ◌∙◌, ◌⊎◌, inl, inr, true, false, List, [],
  ◌∷◌, ◌++◌, arith, length, set, drop, drop_last, Bool-cases, if◌then◌else◌,
}
use rehlds_m.Base.Mod.{mod_cases}
use rehlds_m.CircularBuffer.{
  CircularBuffer, empty, index_before, index_after, push_front, push_back, pop_front, pop_back,
  size,
}
use rehlds_m.CircularBuffer.Deque
use rehlds_m.CircularBuffer.Window.{
  window, length-window, window-set_end, window-set_front, drop-window, drop_last-window,
}
use rehlds_m.CircularBuffer.Inv.{
  IsValid, Fits, index_after_cases, index_before_cases, index_before-lt, index_after-round,
  suc-mod-index_after, suc-index_before-mod,
}

module _ {ℓ} {A : Type ℓ} (n : ℕ) (d : A) where
  -- The elements, oldest first.
  abbrev pub contents : CircularBuffer A → List A
  contents b = window n d b.buffer b.tail (size n b)

  pub length-contents : (b : CircularBuffer A) → length (contents b) ≡ size n b
  length-contents b = length-window n d b.buffer b.tail (size n b)

module _ {ℓ} {A : Type ℓ} (n : ℕ) (fits : Fits n) {b : CircularBuffer A} (v : IsValid n b) where
  -- Without a wrap, the size counts the places from `tail` to `head`, going round.
  size_not_full :
      b.full_flag ≡ false
      → ((b.tail ≤ b.head) × (size n b ≡ b.head - b.tail))
        ⊎ ((b.head < b.tail) × (size n b ≡ n + b.head - b.tail))
  unfolding size
  size_not_full nf = ground arith

  size_full : b.full_flag ≡ true → (b.head ≡ b.tail) × (size n b ≡ n)
  unfolding size
  size_full f = ground arith

  head_of_size :
      size n b < n
      → (b.head < n)
      → ((b.tail ≤ b.head) × (size n b ≡ b.head - b.tail))
        ⊎ ((b.head < b.tail) × (size n b ≡ n + b.head - b.tail))
      → b.head ≡ (b.tail + size n b) % n
  head_of_size small h c = omega (arith, c, mod_cases (b.tail + size n b) n (omega arith))

  pub size_cases :
      ((b.full_flag ≡ true) × (b.head ≡ b.tail) × (size n b ≡ n))
      ⊎ ((b.full_flag ≡ false) × (size n b < n) × (b.head ≡ (b.tail + size n b) % n))
  size_cases = elim (Bool-cases b.full_flag) [
    | inl f ↦ inl (f, (size_full f).0, (size_full f).1)
    | inr nf ↦
        let small : size n b < n = omega (arith, size_not_full nf) in
        inr (nf, small, head_of_size small v.head_in (size_not_full nf))
  ]

module _ {ℓ} {A : Type ℓ} (n : ℕ) (fits : Fits n) where
  pub size-push_back :
      {b : CircularBuffer A} (x : A)
      → IsValid n b
      → size n (push_back n b x) ≡ (if b.full_flag then n else size n b + 1)
  unfolding push_back size
  size-push_back {b} x v =
      ground (arith, index_after_cases n fits b.head, index_after_cases n fits b.tail)

  pub size-push_front :
      {b : CircularBuffer A} (x : A)
      → IsValid n b
      → size n (push_front n b x) ≡ (if b.full_flag then n else size n b + 1)
  unfolding push_front size
  size-push_front {b} x v =
      ground (arith, index_before_cases n fits b.head, index_before_cases n fits b.tail)

  pub size-pop_front : {b : CircularBuffer A} → IsValid n b → size n (pop_front n b) ≡ size n b - 1
  unfolding pop_front size
  size-pop_front {b} v = ground (arith, index_after_cases n fits b.tail)

  pub size-pop_back : {b : CircularBuffer A} → IsValid n b → size n (pop_back n b) ≡ size n b - 1
  unfolding pop_back size
  size-pop_back {b} v = ground (arith, index_before_cases n fits b.head)

  module _ (d : A) where
    contents_of :
        (b : CircularBuffer A) (buf : List A) (t k : ℕ)
        → b.buffer ≡ buf
        → b.tail ≡ t
        → size n b ≡ k
        → contents n d b ≡ window n d buf t k
    contents_of b buf t k e f g = cc

    push_back_full :
        {b : CircularBuffer A} (x : A)
        → IsValid n b
        → b.full_flag ≡ true
        → b.head ≡ b.tail
        → size n b ≡ n
        → contents n d (push_back n b x) ≡ Deque.push_back n (contents n d b) x
    unfolding push_back
    push_back_full {b} x v f meet s =
        let t = index_after n b.tail in
        contents_of (push_back n b x) (set b.buffer b.head x) t (suc (n - 1)) refl (ground arith)
          (size-push_back x v ∙ ground arith)
        ∙ window-set_end n d b.buffer b.head t (n - 1) x v.storage (omega arith)
            (meet ∙ index_after-round n fits b.tail v.tail_in)
        ∙ ap (λ q. q ++ (x ∷ []))
            (sym (
              drop-window n d b.buffer b.tail t (size n b)
                (suc-mod-index_after n fits b.tail v.tail_in) (omega arith) (n - 1) (omega arith)))
        ∙ sym (Deque.push_back_full n (contents n d b) x (length-contents n d b ∙ s))

    push_back_room :
        {b : CircularBuffer A} (x : A)
        → IsValid n b
        → b.full_flag ≡ false
        → size n b < n
        → b.head ≡ (b.tail + size n b) % n
        → contents n d (push_back n b x) ≡ Deque.push_back n (contents n d b) x
    unfolding push_back
    push_back_room {b} x v f small h =
        contents_of (push_back n b x) (set b.buffer b.head x) b.tail (suc (size n b)) refl
          (ground arith) (size-push_back x v ∙ ground arith)
        ∙ window-set_end n d b.buffer b.head b.tail (size n b) x v.storage small h
        ∙ sym (Deque.push_back_room n (contents n d b) x (omega (arith, length-contents n d b)))

    -- `push_back` appends the element, dropping the oldest one of a full buffer.
    pub push_back_refines :
        {b : CircularBuffer A} (x : A)
        → IsValid n b
        → contents n d (push_back n b x) ≡ Deque.push_back n (contents n d b) x
    push_back_refines {b} x v = elim (size_cases n fits v) [
      | inl (f, meet, s) ↦ push_back_full x v f meet s
      | inr (f, small, h) ↦ push_back_room x v f small h
    ]

    push_front_full :
        {b : CircularBuffer A} (x : A)
        → IsValid n b
        → b.full_flag ≡ true
        → size n b ≡ n
        → contents n d (push_front n b x) ≡ Deque.push_front n (contents n d b) x
    unfolding push_front
    push_front_full {b} x v f s =
        let t = index_before n b.tail in
        contents_of (push_front n b x) (set b.buffer t x) t (suc (n - 1)) refl refl
          (size-push_front x v ∙ ground arith)
        ∙ window-set_front n d b.buffer t b.tail (n - 1) x v.storage (omega arith)
            (index_before-lt n fits b.tail v.tail_in) (suc-index_before-mod n fits b.tail v.tail_in)
        ∙ ap (λ q. x ∷ q)
            (sym (drop_last-window n d b.buffer b.tail (size n b) (n - 1) (omega arith)))
        ∙ sym (Deque.push_front_full n (contents n d b) x (length-contents n d b ∙ s))

    push_front_room :
        {b : CircularBuffer A} (x : A)
        → IsValid n b
        → b.full_flag ≡ false
        → size n b < n
        → contents n d (push_front n b x) ≡ Deque.push_front n (contents n d b) x
    unfolding push_front
    push_front_room {b} x v f small =
        let t = index_before n b.tail in
        contents_of (push_front n b x) (set b.buffer t x) t (suc (size n b)) refl refl
          (size-push_front x v ∙ ground arith)
        ∙ window-set_front n d b.buffer t b.tail (size n b) x v.storage small
            (index_before-lt n fits b.tail v.tail_in) (suc-index_before-mod n fits b.tail v.tail_in)
        ∙ sym (Deque.push_front_room n (contents n d b) x (omega (arith, length-contents n d b)))

    -- `push_front` prepends the element, dropping the newest one of a full buffer.
    pub push_front_refines :
        {b : CircularBuffer A} (x : A)
        → IsValid n b
        → contents n d (push_front n b x) ≡ Deque.push_front n (contents n d b) x
    push_front_refines {b} x v = elim (size_cases n fits v) [
      | inl (f, meet, s) ↦ push_front_full x v f s
      | inr (f, small, h) ↦ push_front_room x v f small
    ]

    size-empty : {b : CircularBuffer A} → IsValid n b → empty b ≡ true → size n b ≡ 0
    unfolding empty size
    size-empty v e = ground arith

    size-not_empty : {b : CircularBuffer A} → IsValid n b → empty b ≡ false → 0 < size n b
    unfolding empty size
    size-not_empty v e = ground arith

    contents_empty : (b : CircularBuffer A) → size n b ≡ 0 → contents n d b ≡ []
    contents_empty b e = contents_of b b.buffer b.tail 0 refl refl e

    -- `pop_front` drops the oldest element, and does nothing to an empty buffer.
    pub pop_front_refines :
        {b : CircularBuffer A}
        → IsValid n b
        → contents n d (pop_front n b) ≡ Deque.pop_front (contents n d b)
    unfolding pop_front Deque.pop_front
    pop_front_refines {b} v = elim (Bool-cases (empty b)) [
      | inl e ↦
          contents_empty (pop_front n b) (size-pop_front v ∙ omega (arith, size-empty v e))
          ∙ ap (λ q. drop 1 q) (sym (contents_empty b (size-empty v e)))
      | inr ne ↦
          let t = index_after n b.tail in
          contents_of (pop_front n b) b.buffer t (size n b - 1) (ground arith) (ground arith)
            (size-pop_front v)
          ∙ sym (
              drop-window n d b.buffer b.tail t (size n b)
                (suc-mod-index_after n fits b.tail v.tail_in) (size-not_empty v ne) (size n b - 1)
                (omega (arith, size-not_empty v ne)))
    ]

    -- `pop_back` drops the newest element, and does nothing to an empty buffer.
    pub pop_back_refines :
        {b : CircularBuffer A}
        → IsValid n b
        → contents n d (pop_back n b) ≡ Deque.pop_back (contents n d b)
    unfolding pop_back Deque.pop_back
    pop_back_refines {b} v = elim (Bool-cases (empty b)) [
      | inl e ↦
          contents_empty (pop_back n b) (size-pop_back v ∙ omega (arith, size-empty v e))
          ∙ ap (λ q. drop_last q) (sym (contents_empty b (size-empty v e)))
      | inr ne ↦
          contents_of (pop_back n b) b.buffer b.tail (size n b - 1) (ground arith) (ground arith)
            (size-pop_back v)
          ∙ sym (
              drop_last-window n d b.buffer b.tail (size n b) (size n b - 1)
                (omega (arith, size-not_empty v ne)))
    ]
