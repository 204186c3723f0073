-- ===== src/CircularBuffer/Deque.antt =====
-- The abstract view of a circular buffer: a sequence of at most `n` elements, oldest first, where
-- a push on a full sequence drops the element at the other end.
use rehlds_m.Base.{
  ℕ, ◌==◌, if◌then◌else◌, ◌≡◌, ◌≢◌, arith, List, [], ◌∷◌, ◌++◌, length, drop, drop_last,
}

module _ {ℓ} {A : Type ℓ} where
  unfoldable pub pop_front : List A → List A
  pop_front q = drop 1 q

  unfoldable pub pop_back : List A → List A
  pop_back q = drop_last q

  module _ (n : ℕ) where
    unfoldable pub push_back : List A → A → List A
    push_back q x = (if length q == n then drop 1 q else q) ++ (x ∷ [])

    unfoldable pub push_front : List A → A → List A
    push_front q x = x ∷ (if length q == n then drop_last q else q)

    pub push_back_full : (q : List A) (x : A) → length q ≡ n → push_back q x ≡ drop 1 q ++ (x ∷ [])
    unfolding push_back
    push_back_full q x h = ground arith

    pub push_back_room : (q : List A) (x : A) → length q ≢ n → push_back q x ≡ q ++ (x ∷ [])
    unfolding push_back
    push_back_room q x h = ground arith

    pub push_front_full : (q : List A) (x : A) → length q ≡ n → push_front q x ≡ x ∷ drop_last q
    unfolding push_front
    push_front_full q x h = ground arith

    pub push_front_room : (q : List A) (x : A) → length q ≢ n → push_front q x ≡ x ∷ q
    unfolding push_front
    push_front_room q x h = ground arith
