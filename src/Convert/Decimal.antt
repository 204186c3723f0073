-- ===== src/Convert/Decimal.antt =====
-- Numbers as decimal digits, and back.
use rehlds_m.Base.{
  ℕ, zero, suc, ◌+◌, ◌-◌, ◌*◌, ◌/◌, ◌%◌, ◌≤◌, ◌<◌, ◌≡◌, refl, ap, ◌∙◌, inl, inr, Bool, true, false,
  Bool-cases, if◌then◌else◌, ◌==◌, ltb, Option, none, some, [], ◌∷◌, ◌++◌, Text, arith,
}
use rehlds_m.Base.Int.{ℤ, pos, negsuc}
use rehlds_m.Convert.{
  is_digit, leading_digits, value, int_limit, fit, digits_value, convert_to_type,
}

-- Every number that is read fits into a signed integer of 32 bits.
abbrev pub FitsInt : ℤ → Type 0
FitsInt (pos n) = n < int_limit
FitsInt (negsuc n) = n < int_limit

abbrev pub MaybeFits : Option ℤ → Type 0
MaybeFits none = Unit {0}
MaybeFits (some z) = FitsInt z

fit-MaybeFits : (negative : Bool) (n : ℕ) → MaybeFits (fit negative n)
fit-MaybeFits true zero = omega arith
fit-MaybeFits true (suc n) = elim (Bool-cases (ltb n int_limit)) [
  | inl e ↦ rw (e) (ground arith)
  | inr e ↦ rw (e) tt
]
fit-MaybeFits false n = elim (Bool-cases (ltb n int_limit)) [
  | inl e ↦ rw (e) (ground arith)
  | inr e ↦ rw (e) tt
]

digits_value-MaybeFits : (negative : Bool) (s : Text) → MaybeFits (digits_value negative s)
digits_value-MaybeFits negative [] = tt
digits_value-MaybeFits negative (c ∷ s) = fit-MaybeFits negative (value 0 (c ∷ s))

pub convert_to_type-MaybeFits : (s : Text) → MaybeFits (convert_to_type s)
unfolding convert_to_type
convert_to_type-MaybeFits [] = tt
convert_to_type-MaybeFits (c ∷ s) = elim (Bool-cases (c == b'-')) [
  | inl e ↦ rw (e, convert_to_type) (digits_value-MaybeFits true (leading_digits s))
  | inr e ↦ rw (e, convert_to_type) (digits_value-MaybeFits false (leading_digits (c ∷ s)))
]

-- The digits of a number, as `std::to_string` writes them, on fuel: the number itself is enough.
abbrev pub decimal : ℕ → ℕ → Text
decimal zero n = (b'0' + n % 10) ∷ []
decimal (suc fuel) n =
    let rest = decimal fuel (n / 10) in
    if ltb n 10 then (b'0' + n) ∷ [] else rest ++ ((b'0' + n % 10) ∷ [])

abbrev pub to_string : ℕ → Text
to_string n = decimal n n

abbrev AreDigits : Text → Type 0
AreDigits [] = Unit {0}
AreDigits (c ∷ s) = (is_digit c ≡ true) × AreDigits s

AreDigits-append : (s u : Text) → AreDigits s → AreDigits u → AreDigits (s ++ u)
AreDigits-append [] u h k = k
AreDigits-append (c ∷ s) u h k = (h.0, AreDigits-append s u h.1 k)

is_digit_lem : (n : ℕ) → n < 10 → is_digit (b'0' + n) ≡ true
is_digit_lem n h = ground arith

decimal-AreDigits : (fuel n : ℕ) → AreDigits (decimal fuel n)
decimal-AreDigits zero n = (is_digit_lem (n % 10) (omega arith), tt)
decimal-AreDigits (suc fuel) n = elim (Bool-cases (ltb n 10)) [
  | inl e ↦ rw (e) (is_digit_lem n (ground arith), tt)
  | inr e ↦ rw (e) (
      AreDigits-append (decimal fuel (n / 10)) ((b'0' + n % 10) ∷ [])
        (decimal-AreDigits fuel (n / 10)) (is_digit_lem (n % 10) (omega arith), tt))
]

value-append : (k : ℕ) (s u : Text) → value k (s ++ u) ≡ value (value k s) u
value-append k [] u = refl
value-append k (c ∷ s) u = value-append (k * 10 + (c - b'0')) s u

value-decimal : (fuel n : ℕ) → n ≤ fuel → value 0 (decimal fuel n) ≡ n
value-decimal zero n h = omega arith
value-decimal (suc fuel) n h = elim (Bool-cases (ltb n 10)) [
  | inl e ↦ rw (e) (omega arith)
  | inr e ↦ rw (e) (
      value-append 0 (decimal fuel (n / 10)) ((b'0' + n % 10) ∷ [])
      ∙ omega (arith, value-decimal fuel (n / 10) (ground arith)))
]

-- No digit follows.
abbrev pub Ends : Text → Type 0
Ends [] = Unit {0}
Ends (c ∷ s) = is_digit c ≡ false

leading_digits-append : (s rest : Text) → AreDigits s → Ends rest → leading_digits (s ++ rest) ≡ s
leading_digits-append [] [] h k = refl
leading_digits-append [] (c ∷ rest) h k = rw (k) refl
leading_digits-append (c ∷ s) rest h k =
    rw (h.0) (ap (λ q. c ∷ q) (leading_digits-append s rest h.1 k))

abbrev IsFilled : Text → Type 0
IsFilled [] = ⊥
IsFilled (c ∷ s) = Unit {0}

IsFilled-snoc : (s : Text) (c : ℕ) → IsFilled (s ++ (c ∷ []))
IsFilled-snoc [] c = tt
IsFilled-snoc (d ∷ s) c = tt

decimal-IsFilled : (fuel n : ℕ) → IsFilled (decimal fuel n)
decimal-IsFilled zero n = tt
decimal-IsFilled (suc fuel) n = elim (Bool-cases (ltb n 10)) [
  | inl e ↦ rw (e) tt
  | inr e ↦ rw (e) (IsFilled-snoc (decimal fuel (n / 10)) (b'0' + n % 10))
]

digits_value-fit :
    (negative : Bool) (s : Text) → IsFilled s → digits_value negative s ≡ fit negative (value 0 s)
digits_value-fit negative [] h = absurd h
digits_value-fit negative (c ∷ s) h = refl

unsigned_digits :
    (s rest : Text)
    → IsFilled s
    → AreDigits s
    → convert_to_type (s ++ rest) ≡ digits_value false (leading_digits (s ++ rest))
unfolding convert_to_type
unsigned_digits [] rest h k = absurd h
unsigned_digits (c ∷ s) rest h k =
    let (first, others) = k in
    let e : (c == b'-') ≡ false = ground arith in rw (e, convert_to_type) refl

-- The number that a minus before one makes.
abbrev pub negated : ℕ → ℤ
negated zero = pos zero
negated (suc n) = negsuc n

fit-pos : (n : ℕ) → fit false n ≡ (if ltb n 2_147_483_648 then some (pos n) else none)
fit-pos n = refl

fit-negated : (n : ℕ) → fit true n ≡ (if ltb 2_147_483_648 n then none else some (negated n))
fit-negated zero = refl
fit-negated (suc n) = ground arith

-- The decimal digits of any number, with any text behind them that does not begin with a digit, are
-- read as that number if it is at most 2 147 483 647, and as an error if it is not; with a minus
-- before them they are read as the negative number if the number is at most 2 147 483 648, and as
-- an error if it is not.
pub convert_to_type-to_string :
    (n : ℕ) (rest : Text)
    → Ends rest
    → (convert_to_type (to_string n ++ rest) ≡ (if ltb n 2_147_483_648 then some (pos n) else none))
      × (convert_to_type (b'-' ∷ (to_string n ++ rest))
          ≡ (if ltb 2_147_483_648 n then none else some (negated n)))
unfolding convert_to_type
convert_to_type-to_string n rest h =
    let digits = leading_digits-append (to_string n) rest (decimal-AreDigits n n) h in
    let read : (negative : Bool) → digits_value negative (to_string n) ≡ fit negative n =
      λ negative.
        digits_value-fit negative (to_string n) (decimal-IsFilled n n)
        ∙ ap (fit negative) (value-decimal n n (omega arith)) in
    (
      unsigned_digits (to_string n) rest (decimal-IsFilled n n) (decimal-AreDigits n n)
          ∙ ap (digits_value false) digits
          ∙ read false
          ∙ fit-pos n,
      ap (digits_value true) digits ∙ read true ∙ fit-negated n,
    )
