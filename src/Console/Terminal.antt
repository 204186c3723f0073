-- ===== src/Console/Terminal.antt =====
-- An independent model of what a terminal makes of the printed bytes, on rows without end: a
-- backspace moves left, a carriage return to the start, a line feed to a new row, and any other
-- byte is written over the cell under the cursor.
use rehlds_m.Base.{
  ℕ, ◌≡◌, refl, sym, ap, ap₂, ◌∙◌, Bool, false, ◌||◌, if◌then◌else◌, ◌==◌, List, [], ◌∷◌, ◌++◌,
  append_assoc, length, length-reverse, drop, drop-drop-one, replicate, replicate-snoc, Text, arith,
}
use mathlib.Core.List.{reverse, reverse-cons, reverse-reverse}
use rehlds_m.Stringpy.{newline}
use rehlds_m.Console.{backspace, carriage_return, space, rubouts}

-- `left` holds the cells before the cursor, the nearest one first, `right` those from it on.
pub record Screen : Type 0 where
  pub above : List Text
  pub left : Text
  pub right : Text

step_left : List Text → Text → Text → Screen
step_left above [] right = record { above = above; left = []; right = right }
step_left above (c ∷ left) right = record { above = above; left = left; right = c ∷ right }

unfoldable pub put : Screen → ℕ → Screen
unfolding step_left
put t c =
    if c == backspace
    then step_left t.above t.left t.right
    else if c == carriage_return
    then record t { left = []; right = reverse t.left ++ t.right }
    else if c == newline
    then record { above = (reverse t.left ++ t.right) ∷ t.above; left = []; right = [] }
    else record t { left = c ∷ t.left; right = drop 1 t.right }

unfoldable pub emit : Screen → Text → Screen
emit t [] = t
emit t (c ∷ out) = emit (put t c) out

-- The column of the cursor.
abbrev pub column : Screen → ℕ
column t = length t.left

-- Bytes that a terminal just shows.
abbrev pub is_control : ℕ → Bool
is_control c = c == backspace || (c == carriage_return || c == newline)

abbrev pub IsPlain : Text → Type 0
IsPlain [] = Unit {0}
IsPlain (c ∷ s) = (is_control c ≡ false) × IsPlain s

pub emit-append : (t : Screen) (s u : Text) → emit t (s ++ u) ≡ emit (emit t s) u
unfolding emit
emit-append t [] u = refl
emit-append t (c ∷ s) u = emit-append (put t c) s u

module _ (above : List Text) where
  abbrev pub at : Text → Text → Screen
  at left right = record { above = above; left = left; right = right }

  pub put-plain :
      (l r : Text) (c : ℕ) → is_control c ≡ false → put (at l r) c ≡ at (c ∷ l) (drop 1 r)
  unfolding put
  put-plain l r c h = ground arith

  pub put-backspace : (x : ℕ) (l r : Text) → put (at (x ∷ l) r) backspace ≡ at l (x ∷ r)
  unfolding put
  put-backspace x l r = refl

  -- Plain text is written over the cells.
  pub emit-plain :
      (l r s : Text) → IsPlain s → emit (at l r) s ≡ at (reverse s ++ l) (drop (length s) r)
  unfolding emit
  emit-plain l r [] h = refl
  emit-plain l r (c ∷ s) h =
      ap (λ t. emit t s) (put-plain l r c h.0)
      ∙ emit-plain (c ∷ l) (drop 1 r) s h.1
      ∙ ap₂ at (sym (ap (λ q. q ++ l) (reverse-cons c s) ∙ append_assoc (reverse s) (c ∷ []) l))
          (drop-drop-one r (length s))

  back_over :
      (m l r : Text) → emit (at (m ++ l) r) (replicate (length m) backspace) ≡ at l (reverse m ++ r)
  unfolding emit
  back_over [] l r = refl
  back_over (c ∷ m) l r =
      ap (λ t. emit t (replicate (length m) backspace)) (put-backspace c (m ++ l) r)
      ∙ back_over m l (c ∷ r)
      ∙ ap (at l) (sym (ap (λ q. q ++ r) (reverse-cons c m) ∙ append_assoc (reverse m) (c ∷ []) r))

  -- As many backspaces as there are cells in a text.
  pub emit-backspaces :
      (l r s : Text) → emit (at (reverse s ++ l) r) (replicate (length s) backspace) ≡ at l (s ++ r)
  emit-backspaces l r s =
      ap (λ n. emit (at (reverse s ++ l) r) (replicate n backspace)) (sym (length-reverse s))
      ∙ back_over (reverse s) l r
      ∙ ap (λ q. at l (q ++ r)) (reverse-reverse s)

  pub emit-return : (l r : Text) → emit (at l r) (carriage_return ∷ []) ≡ at [] (reverse l ++ r)
  unfolding emit put
  emit-return l r = refl

  -- Each rubout takes one cell off.
  pub emit-rubouts :
      (l r : Text) → emit (at l r) (rubouts (length l)) ≡ at [] (replicate (length l) space ++ r)
  unfolding emit put
  emit-rubouts [] r = refl
  emit-rubouts (c ∷ l) r =
      emit-rubouts l (space ∷ r) ∙ ap (at []) (replicate-snoc (length l) space r)
