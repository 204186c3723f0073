-- ===== src/Console/Display.antt =====
-- The terminal shows the line that the editor holds, with the cursor where the editor has it:
-- after every key, for a terminal without end.
use mathlib.Core.List.{reverse, reverse-append}
use rehlds_m.Base.{
  ℕ, zero, suc, ◌+◌, ◌≤◌, ◌<◌, ◌≡◌, refl, sym, ap, ◌∙◌, false, List, [], ◌∷◌, ◌++◌, append_assoc,
  length, length-append, take, drop, take-suc, drop-suc, get_or, replicate, drop-append_length,
  Text, arith,
}
use rehlds_m.Console.{ConsoleInput, backspace, space}
use rehlds_m.Console.Terminal.{
  Screen, at, put, emit, emit-append, emit-plain, emit-backspaces, put-plain, put-backspace,
  is_control, IsPlain,
}

abbrev pub blanks : ℕ → Text
blanks k = replicate k space

-- The cells of a row that shows `line`, with its cursor behind `cursor` bytes, and `k` cells that
-- were blanked behind the line.
abbrev pub row : List Text → Text → ℕ → ℕ → Screen
row above line cursor k = at above (reverse (take cursor line)) (drop cursor line ++ blanks k)

-- The terminal shows what the editor holds.
abbrev pub Shows : Screen → ConsoleInput → Type 0
Shows t c = (above : List Text) × (k : ℕ) × (t ≡ row above c.input_line c.cursor_position k)

-- The editor's own invariant: the cursor stands in the line, and the line is plain.
pub record IsEditing (c : ConsoleInput) : Type 0 where
  pub inside : c.cursor_position ≤ length c.input_line
  pub plain : IsPlain c.input_line

pub IsPlain-append : (s u : Text) → IsPlain s → IsPlain u → IsPlain (s ++ u)
IsPlain-append [] u p q = q
IsPlain-append (c ∷ s) u p q = (p.0, IsPlain-append s u p.1 q)

pub IsPlain-take : (s : Text) (n : ℕ) → IsPlain s → IsPlain (take n s)
IsPlain-take s zero p = tt
IsPlain-take [] (suc n) p = tt
IsPlain-take (c ∷ s) (suc n) p = (p.0, IsPlain-take s n p.1)

pub IsPlain-drop : (s : Text) (n : ℕ) → IsPlain s → IsPlain (drop n s)
IsPlain-drop s zero p = p
IsPlain-drop [] (suc n) p = tt
IsPlain-drop (c ∷ s) (suc n) p = IsPlain-drop s n p.1

IsPlain-get_or : (s : Text) (n : ℕ) → IsPlain s → n < length s → is_control (get_or s n 0) ≡ false
IsPlain-get_or [] n p h = absurd (omega arith)
IsPlain-get_or (c ∷ s) zero p h = p.0
IsPlain-get_or (c ∷ s) (suc n) p h = IsPlain-get_or s n p.1 (omega arith)

module _ (above : List Text) where
  -- A row with the byte before, or behind, the cursor singled out.
  pub row-left :
      (line : Text) (cursor k : ℕ)
      → cursor < length line
      → row above line (suc cursor) k
        ≡ at above
            (get_or line cursor 0 ∷ reverse (take cursor line))
            (drop (suc cursor) line ++ blanks k)
  row-left line cursor k h =
      ap (λ q. at above q (drop (suc cursor) line ++ blanks k))
        (ap (λ q. reverse q) (take-suc line cursor 0 h)
          ∙ reverse-append (take cursor line) (get_or line cursor 0 ∷ []))

  pub row-right :
      (line : Text) (cursor k : ℕ)
      → cursor < length line
      → row above line cursor k
        ≡ at above
            (reverse (take cursor line))
            (get_or line cursor 0 ∷ (drop (suc cursor) line ++ blanks k))
  row-right line cursor k h =
      ap (λ q. at above (reverse (take cursor line)) (q ++ blanks k)) (drop-suc line cursor 0 h)

  -- The next byte of the line is printed over itself.
  pub right_moves :
      (line : Text) (cursor k : ℕ)
      → IsPlain line
      → cursor < length line
      → emit (row above line cursor k) (get_or line cursor 0 ∷ []) ≡ row above line (suc cursor) k
  unfolding emit
  right_moves line cursor k p h =
      ap (λ t. put t (get_or line cursor 0)) (row-right line cursor k h)
      ∙ put-plain above _ _ (get_or line cursor 0) (IsPlain-get_or line cursor p h)
      ∙ sym (row-left line cursor k h)

  pub left_moves :
      (line : Text) (cursor k : ℕ)
      → cursor < length line
      → emit (row above line (suc cursor) k) (backspace ∷ []) ≡ row above line cursor k
  unfolding emit
  left_moves line cursor k h =
      ap (λ t. put t backspace) (row-left line cursor k h)
      ∙ put-backspace above (get_or line cursor 0) _ _
      ∙ sym (row-right line cursor k h)

  -- Text is printed over as many cells.
  pub overwrites :
      (l s old b : Text)
      → IsPlain s
      → length old ≡ length s
      → emit (at above l (old ++ b)) s ≡ at above (reverse s ++ l) b
  overwrites l s old b p h =
      emit-plain above l (old ++ b) s p
      ∙ ap (at above (reverse s ++ l))
          (ap (λ n. drop n (old ++ b)) (sym h) ∙ drop-append_length old b)

  -- The same, with the way back.
  pub overwrites_back :
      (l s old b : Text)
      → IsPlain s
      → length old ≡ length s
      → emit (at above l (old ++ b)) (s ++ replicate (length s) backspace) ≡ at above l (s ++ b)
  overwrites_back l s old b p h =
      emit-append (at above l (old ++ b)) s (replicate (length s) backspace)
      ∙ ap (λ t. emit t (replicate (length s) backspace)) (overwrites l s old b p h)
      ∙ emit-backspaces above l b s

  -- Redrawing what follows the cursor, over a row whose line was one byte longer.
  pub redrawn :
      (l rest old : Text) (k n : ℕ)
      → IsPlain rest
      → length old ≡ length rest + 1
      → n ≡ length rest + 1
      → emit (at above l (old ++ blanks k)) (rest ++ (space ∷ replicate n backspace))
        ≡ at above l (rest ++ blanks (suc k))
  redrawn l rest old k n p h e =
      ap (λ q. emit (at above l (old ++ blanks k)) q)
        (ap (λ m. rest ++ (space ∷ replicate m backspace)) (e ∙ sym counted)
          ∙ sym (append_assoc rest (space ∷ []) _))
      ∙ overwrites_back l (rest ++ (space ∷ [])) old (blanks k)
          (IsPlain-append rest (space ∷ []) p (refl, tt)) (h ∙ sym counted)
      ∙ ap (at above l) (append_assoc rest (space ∷ []) (blanks k))
    where
      counted : length (rest ++ (space ∷ [])) ≡ length rest + 1
      counted = length-append rest (space ∷ [])
