-- ===== src/History/Emplace.antt =====
-- Entering one text: what the buffer holds afterwards, seen as a sequence.
use rehlds_m.Base.{
  ◌+◌, ◌≤◌, ◌<◌, ◌≡◌, sym, ap, ◌∙◌, inl, inr, true, false, not, ◌&&◌, subst, ◌==◌, if◌then◌else◌,
  Bool-cases, List, [], ◌∷◌, ◌++◌, arith, append-nil, append_assoc, length, length-append, last_or,
  Text, text_eq,
}
use rehlds_m.Stringpy.{Stringpy}
use rehlds_m.CircularBuffer.{CircularBuffer}
use rehlds_m.CircularBuffer.Deque
use rehlds_m.CircularBuffer.Inv.{IsValid, Fits, push_back-IsValid, size-le}
use rehlds_m.CircularBuffer.Refine.{contents, length-contents, push_back_refines}
use rehlds_m.CircularBuffer.Reads.{back-contents}
use rehlds_m.History.{history_capacity, is_valid_input, wanted, emplace, emplace_all}
use rehlds_m.History.Kept.{IsKept, IsKept-rotate, IsKept-snoc, IsKept-middle}

abbrev pub Buffer : Type 0
Buffer = CircularBuffer Text

pub fits : Fits history_capacity
fits = omega arith

-- The entries, oldest first.
abbrev pub entries : Buffer → List Text
entries b = contents history_capacity [] b

abbrev pub IsSound : Buffer → Type 0
IsSound b = IsValid history_capacity b

pub length-entries : {b : Buffer} → IsSound b → length (entries b) ≤ history_capacity
length-entries {b} v =
    omega (arith, length-contents history_capacity [] b, size-le history_capacity fits v)

module _ (str : Stringpy) where
  pub emplace-IsValid : {b : Buffer} (x : Text) → IsSound b → IsSound (emplace str b x)
  unfolding emplace
  emplace-IsValid {b} x v = ground (arith, push_back-IsValid history_capacity fits x v)

  pub entries-emplace :
      {b : Buffer} (x : Text)
      → IsSound b
      → entries (emplace str b x)
        ≡ (if wanted str b x then Deque.push_back history_capacity (entries b) x else entries b)
  unfolding emplace
  entries-emplace {b} x v = ground (arith, push_back_refines history_capacity fits [] x v)

  -- On an empty history the comparison is with what the array still holds.
  pub wanted-last :
      {b : Buffer} (x : Text)
      → IsSound b
      → 0 < length (entries b)
      → wanted str b x ≡ (is_valid_input str x && not (text_eq x (last_or (entries b) [])))
  wanted-last {b} x v h =
      ap (λ y. is_valid_input str x && not (text_eq x y))
        (back-contents history_capacity fits [] v
          (omega (arith, length-contents history_capacity [] b)))

  IsKept-push_back :
      (q : List Text) (x : Text)
      → IsKept str q
      → is_valid_input str x ≡ true
      → (0 < length q → text_eq x (last_or q []) ≡ false)
      → IsKept str (Deque.push_back history_capacity q x)
  IsKept-push_back q x k v ne = elim (Bool-cases (length q == history_capacity)) [
    | inl full ↦
        rw (Deque.push_back_full history_capacity q x (ground arith))
          (IsKept-rotate str q x [] k v ne)
    | inr room ↦
        rw (Deque.push_back_room history_capacity q x (ground arith))
          (IsKept-snoc str q x [] k v ne)
  ]

  wanted_valid : (b : Buffer) (x : Text) → wanted str b x ≡ true → is_valid_input str x ≡ true
  wanted_valid b x w = ground arith

  wanted_new :
      {b : Buffer} (x : Text)
      → IsSound b
      → wanted str b x ≡ true
      → 0 < length (entries b)
      → text_eq x (last_or (entries b) []) ≡ false
  wanted_new {b} x v w h = ground (arith, sym (wanted-last x v h) ∙ w)

  pub emplace-IsKept :
      {b : Buffer} (x : Text)
      → IsSound b
      → IsKept str (entries b)
      → IsKept str (entries (emplace str b x))
  emplace-IsKept {b} x v k = elim (Bool-cases (wanted str b x)) [
    | inl w ↦
        rw (entries-emplace x v, w)
          (IsKept-push_back (entries b) x k (wanted_valid b x w) (wanted_new x v w))
    | inr u ↦ rw (entries-emplace x v, u) k
  ]

  -- A text that the history may hold next is stored, while there is room.
  pub entries-emplace_next :
      {b : Buffer} (x : Text)
      → IsSound b
      → wanted str b x ≡ true
      → length (entries b) < history_capacity
      → entries (emplace str b x) ≡ entries b ++ (x ∷ [])
  entries-emplace_next {b} x v w room =
      entries-emplace x v
      ∙ ap (λ t. if t then Deque.push_back history_capacity (entries b) x else entries b) w
      ∙ Deque.push_back_room history_capacity (entries b) x (omega arith)

  pub emplace_all-IsValid :
      (xs : List Text) {b : Buffer} → IsSound b → IsSound (emplace_all str b xs)
  unfolding emplace_all
  emplace_all-IsValid [] v = v
  emplace_all-IsValid (x ∷ xs) v = emplace_all-IsValid xs (emplace-IsValid x v)

  pub emplace_all-IsKept :
      (xs : List Text) {b : Buffer}
      → IsSound b
      → IsKept str (entries b)
      → IsKept str (entries (emplace_all str b xs))
  unfolding emplace_all
  emplace_all-IsKept [] v k = k
  emplace_all-IsKept (x ∷ xs) v k =
      emplace_all-IsKept xs (emplace-IsValid x v) (emplace-IsKept x v k)

  next_wanted :
      {b : Buffer} (x : Text) (xs : List Text)
      → IsSound b
      → IsKept str (entries b ++ (x ∷ xs))
      → 0 < length (entries b)
      → wanted str b x ≡ true
  next_wanted {b} x xs v k h =
      let (valid, ne) = IsKept-middle str (entries b) x [] xs k in
      wanted-last x v h ∙ ground (arith, valid, ne h)

  -- Texts that the history may hold next are all stored, in order, while there is room.
  pub entries-emplace_all :
      (xs : List Text) {b : Buffer}
      → IsSound b
      → IsKept str (entries b ++ xs)
      → 0 < length (entries b)
      → length (entries b) + length xs ≤ history_capacity
      → entries (emplace_all str b xs) ≡ entries b ++ xs
  unfolding emplace_all
  entries-emplace_all [] {b} v k h room = sym (append-nil (entries b))
  entries-emplace_all (x ∷ xs) {b} v k h room =
      entries-emplace_all xs (emplace-IsValid x v) (subst (IsKept str) (sym whole) k)
        (omega (arith, count)) (omega (arith, count))
      ∙ whole
    where
      grown : entries (emplace str b x) ≡ entries b ++ (x ∷ [])
      grown = entries-emplace_next x v (next_wanted x xs v k h) (omega arith)

      whole : entries (emplace str b x) ++ xs ≡ entries b ++ (x ∷ xs)
      whole = ap (λ q. q ++ xs) grown ∙ append_assoc (entries b) (x ∷ []) xs

      count : length (entries (emplace str b x)) ≡ length (entries b) + 1
      count = ap length grown ∙ length-append (entries b) (x ∷ [])
