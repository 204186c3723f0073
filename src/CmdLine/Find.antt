-- ===== src/CmdLine/Find.antt =====
-- Where an argument is found.
use rehlds_m.Base.{
  ℕ, suc, ◌+◌, ◌≤◌, ◌≡◌, refl, inl, inr, Bool, true, Bool-cases, if◌then◌else◌, Option, none, some,
  [], ◌∷◌, ◌++◌, length, Text, starts_with, arith,
}
use rehlds_m.CmdLine.{rfind, later, remove_argument_prefix, find_argument_pos, is_some, contains}

starts_with-length : (p s : Text) → starts_with p s ≡ true → length p ≤ length s
starts_with-length [] s h = omega arith
starts_with-length (a ∷ p) [] h = absurd (ground arith)
starts_with-length (a ∷ p) (b ∷ s) h = omega (arith, starts_with-length p s (ground arith))

-- An occurrence, if there is one, lies in the text.
abbrev pub LiesIn : Option ℕ → ℕ → Text → Type 0
LiesIn none n s = Unit {0}
LiesIn (some pos) n s = pos + n ≤ length s

pub rfind-LiesIn : (sub s : Text) → LiesIn (rfind sub s) (length sub) s
unfolding rfind
rfind-LiesIn sub [] = elim (Bool-cases (starts_with sub [])) [
  | inl e ↦ rw (e, rfind) (omega (arith, starts_with-length sub [] e))
  | inr e ↦ rw (e, rfind) tt
]
rfind-LiesIn sub (ch ∷ s) = behind (rfind sub s) (rfind-LiesIn sub s)
  where
    behind :
        (o : Option ℕ)
        → LiesIn o (length sub) s
        → LiesIn
            (elim o [
              | some pos ↦ some (suc pos)
              | none ↦ if starts_with sub (ch ∷ s) then some 0 else none
            ])
            (length sub)
            (ch ∷ s)
    behind (some pos) h = omega (arith, h)
    behind none h = elim (Bool-cases (starts_with sub (ch ∷ s))) [
      | inl e ↦ rw (e) (omega (arith, starts_with-length sub (ch ∷ s) e))
      | inr e ↦ rw (e) tt
    ]

LiesIn-later :
    (o₁ o₂ : Option ℕ) (n : ℕ) (s : Text) → LiesIn o₁ n s → LiesIn o₂ n s → LiesIn (later o₁ o₂) n s
LiesIn-later none o₂ n s h k = k
LiesIn-later (some pos₁) none n s h k = h
LiesIn-later (some pos₁) (some pos₂) n s h k = ground arith

pub find_argument_pos-LiesIn :
    (arguments arg : Text)
    → LiesIn (find_argument_pos arguments arg) (suc (length (remove_argument_prefix arg))) arguments
unfolding find_argument_pos
find_argument_pos-LiesIn arguments arg =
    LiesIn-later (rfind (b'+' ∷ remove_argument_prefix arg) arguments)
      (rfind (b'-' ∷ remove_argument_prefix arg) arguments) _ arguments
      (rfind-LiesIn (b'+' ∷ remove_argument_prefix arg) arguments)
      (rfind-LiesIn (b'-' ∷ remove_argument_prefix arg) arguments)

pub starts_with-append : (p s : Text) → starts_with p (p ++ s) ≡ true
starts_with-append [] s = refl
starts_with-append (a ∷ p) s = ground (arith, starts_with-append p s)

is_some-here :
    (o : Option ℕ) (b : Bool)
    → b ≡ true
    → is_some (elim o [ some pos ↦ some (suc pos) | none ↦ if b then some 0 else none ]) ≡ true
is_some-here (some pos) b e = refl
is_some-here none b e = ground arith

is_some-behind :
    (o : Option ℕ) (b : Bool)
    → is_some o ≡ true
    → is_some (elim o [ some pos ↦ some (suc pos) | none ↦ if b then some 0 else none ]) ≡ true
is_some-behind (some pos) b e = refl
is_some-behind none b e = absurd (ground arith)

pub rfind-append : (before sub rest : Text) → is_some (rfind sub (before ++ (sub ++ rest))) ≡ true
unfolding rfind
rfind-append [] [] [] = refl
rfind-append [] [] (ch ∷ rest) = is_some-here (rfind [] rest) true refl
rfind-append [] (a ∷ sub) rest =
    is_some-here (rfind (a ∷ sub) (sub ++ rest)) _ (starts_with-append (a ∷ sub) rest)
rfind-append (b ∷ before) sub rest =
    is_some-behind (rfind sub (before ++ (sub ++ rest))) _ (rfind-append before sub rest)

pub is_some-later : (o₁ o₂ : Option ℕ) → is_some o₂ ≡ true → is_some (later o₁ o₂) ≡ true
is_some-later none o₂ e = e
is_some-later (some pos₁) none e = refl
is_some-later (some pos₁) (some pos₂) e = refl

-- An argument counts as contained wherever the text has its name behind a minus, whatever stands
-- before it and whatever follows the name: also where it is the beginning of a longer name or a
-- part of an option.
pub contains-append :
    (before arg rest : Text)
    → contains (before ++ ((b'-' ∷ remove_argument_prefix arg) ++ rest)) arg ≡ true
unfolding contains find_argument_pos
contains-append before arg rest =
    is_some-later _ _ (rfind-append before (b'-' ∷ remove_argument_prefix arg) rest)
