-- ===== src/History/Kept.antt =====
-- What a command history may hold: valid inputs, of which no two neighbours are equal.
use rehlds_m.Base.{
  ◌<◌, ◌≡◌, refl, true, false, List, [], ◌∷◌, ◌++◌, arith, length, drop, last_or, Text, text_eq,
}
use rehlds_m.Stringpy.{Stringpy, LineLaws, IsOneLine, AreLines, ArePrintable}
use rehlds_m.History.{is_valid_input}

module _ (str : Stringpy) where
  abbrev pub IsKept : List Text → Type 0
  IsKept [] = Unit {0}
  IsKept (x ∷ []) = is_valid_input str x ≡ true
  IsKept (x ∷ y ∷ r) = (is_valid_input str x ≡ true) × (text_eq y x ≡ false) × IsKept (y ∷ r)

  pub IsKept-snoc :
      (q : List Text) (x d : Text)
      → IsKept q
      → is_valid_input str x ≡ true
      → (0 < length q → text_eq x (last_or q d) ≡ false)
      → IsKept (q ++ (x ∷ []))
  IsKept-snoc [] x d k v ne = v
  IsKept-snoc (y ∷ []) x d k v ne = (k, ne (omega arith), v)
  IsKept-snoc (y ∷ z ∷ r) x d k v ne =
      (k.0, k.1, IsKept-snoc (z ∷ r) x y k.2 v (λ _. ne (omega arith)))

  -- The same where the oldest entry makes room.
  pub IsKept-rotate :
      (q : List Text) (x d : Text)
      → IsKept q
      → is_valid_input str x ≡ true
      → (0 < length q → text_eq x (last_or q d) ≡ false)
      → IsKept (drop 1 q ++ (x ∷ []))
  IsKept-rotate [] x d k v ne = v
  IsKept-rotate (y ∷ []) x d k v ne = v
  IsKept-rotate (y ∷ z ∷ r) x d k v ne = IsKept-snoc (z ∷ r) x y k.2 v (λ _. ne (omega arith))

  pub IsKept-head : (x : Text) (r : List Text) → IsKept (x ∷ r) → is_valid_input str x ≡ true
  IsKept-head x [] k = k
  IsKept-head x (y ∷ r) k = k.0

  pub IsKept-tail : (x : Text) (r : List Text) → IsKept (x ∷ r) → IsKept r
  IsKept-tail x [] k = tt
  IsKept-tail x (y ∷ r) k = k.2

  -- What a history demands of an entry in it.
  pub IsKept-middle :
      (q : List Text) (x d : Text) (r : List Text)
      → IsKept (q ++ (x ∷ r))
      → (is_valid_input str x ≡ true) × (0 < length q → text_eq x (last_or q d) ≡ false)
  IsKept-middle [] x d r k = (IsKept-head x r k, λ h. absurd (omega arith))
  IsKept-middle (y ∷ []) x d r k = (IsKept-head x r k.2, λ h. k.1)
  IsKept-middle (y ∷ z ∷ q) x d r k =
      let (v, ne) = IsKept-middle (z ∷ q) x y r k.2 in (v, λ h. ne (omega arith))

  pub valid_not_empty :
      LineLaws str → (x : Text) → is_valid_input str x ≡ true → text_eq x [] ≡ false
  unfolding is_valid_input
  valid_not_empty laws [] v = ground (arith, laws.empty_is_space)
  valid_not_empty laws (c ∷ x) v = refl

  valid-IsOneLine : LineLaws str → (x : Text) → is_valid_input str x ≡ true → IsOneLine x
  unfolding is_valid_input
  valid-IsOneLine laws x v = laws.printable_line x (ground arith)

  valid-printable :
      (x : Text)
      → is_valid_input str x ≡ true
      → (str.is_printable x ≡ true) × (str.is_empty_or_space x ≡ false)
  unfolding is_valid_input
  valid-printable x v = (ground arith, ground arith)

  pub ArePrintable-IsKept : (q : List Text) → IsKept q → ArePrintable str q
  ArePrintable-IsKept [] k = tt
  ArePrintable-IsKept (x ∷ r) k =
      let (shown, filled) = valid-printable x (IsKept-head x r k) in
      (shown, filled, ArePrintable-IsKept r (IsKept-tail x r k))

  pub AreLines-IsKept : LineLaws str → (q : List Text) → IsKept q → AreLines q
  AreLines-IsKept laws [] k = tt
  AreLines-IsKept laws (x ∷ r) k =
      (valid-IsOneLine laws x (IsKept-head x r k), AreLines-IsKept laws r (IsKept-tail x r k))
