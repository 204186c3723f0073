-- ===== src/Console/Splice.antt =====
-- Taking a byte out of the row that is shown, and putting one in.
use mathlib.Core.List.{reverse, reverse-cons}
use rehlds_m.Base.{
  ℕ, zero, suc, ◌+◌, ◌-◌, ◌≤◌, ◌<◌, ◌≡◌, refl, sym, ap, ap₂, ◌∙◌, false, List, [], ◌∷◌, ◌++◌,
  append_assoc, length, length-append, length-take, length-drop, take, drop, replicate, Text, arith,
  drop-append_length, take-append_length, drop-suc, get_or,
}
use rehlds_m.Console.{backspace, space, backspaces, redraw}
use rehlds_m.Console.Terminal.{
  at, emit, emit-append, emit-plain, emit-backspaces, is_control, IsPlain,
}
use rehlds_m.Console.Display.{blanks, row, IsPlain-drop, redrawn, row-left}

-- The sides of the cursor in a line that is put together there.
sides :
    (line b : Text) (cursor : ℕ)
    → cursor ≤ length line
    → (take cursor (take cursor line ++ b) ≡ take cursor line)
      × (drop cursor (take cursor line ++ b) ≡ b)
sides line b cursor h = (
  ap (λ n. take n (take cursor line ++ b)) (sym counted) ∙ take-append_length (take cursor line) b,
  ap (λ n. drop n (take cursor line ++ b)) (sym counted) ∙ drop-append_length (take cursor line) b,
)
  where
    counted : length (take cursor line) ≡ cursor
    counted = omega (arith, length-take cursor line)

drop-past : (s u : Text) → drop (suc (length s)) (s ++ u) ≡ drop 1 u
drop-past [] u = refl
drop-past (c ∷ s) u = drop-past s u

cons-head : {c d : ℕ} → {s u : Text} → c ∷ s ≡ d ∷ u → c ≡ d
cons-head e = ap (λ s. get_or s 0 0) e

cons-tail : {c d : ℕ} → {s u : Text} → c ∷ s ≡ d ∷ u → s ≡ u
cons-tail e = ap (drop 1) e

module _ (above : List Text) where
  -- The byte under the cursor is taken out.
  pub erased :
      (line : Text) (cursor k : ℕ)
      → IsPlain line
      → cursor < length line
      → let new = take cursor line ++ drop (cursor + 1) line in
        emit (row above line cursor k) (redraw new cursor) ≡ row above new cursor (suc k)
  erased line cursor k p h =
      ap (λ q. emit (row above line cursor k) (q ++ (space ∷ backspaces (length new + 1) cursor)))
        (sides line rest cursor (omega arith)).1
      ∙ redrawn above (reverse (take cursor line)) rest (drop cursor line) k
          (length new + 1 - cursor) (IsPlain-drop line (cursor + 1) p) counted over
      ∙ sym (
          ap₂ (λ a b. at above (reverse a) (b ++ blanks (suc k)))
            (sides line rest cursor (omega arith)).0 (sides line rest cursor (omega arith)).1)
    where
      rest : Text
      rest = drop (cursor + 1) line

      new : Text
      new = take cursor line ++ rest

      counted : length (drop cursor line) ≡ length rest + 1
      counted = omega (arith, length-drop cursor line, length-drop (cursor + 1) line)

      over : length new + 1 - cursor ≡ length rest + 1
      over = omega (arith, length-append (take cursor line) rest, length-take cursor line)

  -- A byte is put in at the cursor, which moves behind it.
  pub inserted :
      (line : Text) (cursor k ch : ℕ)
      → IsPlain line
      → is_control ch ≡ false
      → cursor ≤ length line
      → let new = take cursor line ++ (ch ∷ drop cursor line) in
        emit (row above line cursor k) (drop cursor new ++ backspaces (length new) (cursor + 1))
        ≡ row above new (cursor + 1) (k - 1)
  inserted line cursor k ch p q h =
      ap₂ (λ a n. emit (row above line cursor k) (a ++ replicate n backspace))
        (sides line (ch ∷ rest) cursor h).1 counted
      ∙ emit-append (row above line cursor k) (ch ∷ rest) (replicate (length rest) backspace)
      ∙ ap (λ t. emit t (replicate (length rest) backspace)) printed
      ∙ emit-backspaces above (ch ∷ reverse (take cursor line)) (blanks (k - 1)) rest
      ∙ sym placed
    where
      rest : Text
      rest = drop cursor line

      new : Text
      new = take cursor line ++ (ch ∷ rest)

      counted : length new - (cursor + 1) ≡ length rest
      counted = omega (
        arith,
        length-append (take cursor line) (ch ∷ rest),
        length-take cursor line,
        length-drop cursor line,
      )

      fewer : (n : ℕ) → drop 1 (blanks n) ≡ blanks (n - 1)
      fewer zero = refl
      fewer (suc n) = let e : n ≡ suc n - 1 = omega arith in ap blanks e

      printed :
          emit (row above line cursor k) (ch ∷ rest)
          ≡ at above (reverse rest ++ (ch ∷ reverse (take cursor line))) (blanks (k - 1))
      printed =
          emit-plain above (reverse (take cursor line)) (rest ++ blanks k) (ch ∷ rest)
            (q, IsPlain-drop line cursor p)
          ∙ ap₂ (at above)
              (ap (λ l. l ++ reverse (take cursor line)) (reverse-cons ch rest)
                ∙ append_assoc (reverse rest) (ch ∷ []) (reverse (take cursor line)))
              (drop-past rest (blanks k) ∙ fewer k)

      reached : cursor < length new
      reached = omega (arith, length-append (take cursor line) (ch ∷ rest), length-take cursor line)

      there : cursor + 1 ≡ suc cursor
      there = omega arith

      at_cursor : get_or new cursor 0 ∷ drop (suc cursor) new ≡ ch ∷ rest
      at_cursor = sym (drop-suc new cursor 0 reached) ∙ (sides line (ch ∷ rest) cursor h).1

      placed :
          row above new (cursor + 1) (k - 1)
          ≡ at above (ch ∷ reverse (take cursor line)) (rest ++ blanks (k - 1))
      placed =
          ap (λ n. row above new n (k - 1)) there
          ∙ row-left above new cursor (k - 1) reached
          ∙ ap₂ (at above)
              (ap₂ ◌∷◌ (cons-head at_cursor) (ap reverse (sides line (ch ∷ rest) cursor h).0))
              (ap (λ q. q ++ blanks (k - 1)) (cons-tail at_cursor))
