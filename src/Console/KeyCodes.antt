-- ===== src/Console/KeyCodes.antt =====
-- The codes that a terminal sends for the keys, and that the reader finds the keys in them.
use rehlds_m.Base.{
  ℕ, zero, suc, ◌≤◌, ◌≡◌, refl, ap, ◌∙◌, Bool, false, ◌||◌, ◌==◌, some, List, [], ◌∷◌, ◌++◌, length,
  length-append, Text, arith,
}
use rehlds_m.Stringpy.{newline}
use rehlds_m.Console.{backspace}
use rehlds_m.Console.Keys.{
  Key, up_arrow, down_arrow, right_arrow, left_arrow, end_key, home_key, delete_key, newline_key,
  backspace_key, tab_key, char_key, escape, delete_byte, tab, read_input, read_keys, handle_escape,
  and_then,
}

abbrev pub sequence : Text → Text
sequence s = escape ∷ b'[' ∷ s

-- What a terminal sends.
abbrev pub code : Key → Text
code up_arrow = sequence (b'A' ∷ [])
code down_arrow = sequence (b'B' ∷ [])
code right_arrow = sequence (b'C' ∷ [])
code left_arrow = sequence (b'D' ∷ [])
code end_key = sequence (b'F' ∷ [])
code home_key = sequence (b'H' ∷ [])
code delete_key = sequence (b'3' ∷ b'~' ∷ [])
code newline_key = newline ∷ []
code backspace_key = delete_byte ∷ []
code tab_key = tab ∷ []
code (char_key ch) = ch ∷ []

abbrev pub codes : List Key → Text
codes [] = []
codes (key ∷ keys) = code key ++ codes keys

-- The bytes that stand for themselves.
abbrev pub is_command_byte : ℕ → Bool
is_command_byte b =
    b == 0 || (b == newline || (b == escape || ((b == delete_byte || b == backspace) || b == tab)))

abbrev pub IsTyped : Key → Type 0
IsTyped (char_key ch) = is_command_byte ch ≡ false
IsTyped up_arrow = Unit {0}
IsTyped down_arrow = Unit {0}
IsTyped right_arrow = Unit {0}
IsTyped left_arrow = Unit {0}
IsTyped end_key = Unit {0}
IsTyped home_key = Unit {0}
IsTyped delete_key = Unit {0}
IsTyped newline_key = Unit {0}
IsTyped backspace_key = Unit {0}
IsTyped tab_key = Unit {0}

abbrev pub AreTyped : List Key → Type 0
AreTyped [] = Unit {0}
AreTyped (key ∷ keys) = IsTyped key × AreTyped keys

read_input-code : (key : Key) (s : Text) → IsTyped key → read_input (code key ++ s) ≡ (some key, s)
unfolding read_input handle_escape
read_input-code up_arrow s h = refl
read_input-code down_arrow s h = refl
read_input-code right_arrow s h = refl
read_input-code left_arrow s h = refl
read_input-code end_key s h = refl
read_input-code home_key s h = refl
read_input-code delete_key s h = refl
read_input-code newline_key s h = refl
read_input-code backspace_key s h = refl
read_input-code tab_key s h = refl
read_input-code (char_key ch) s h = ground arith

code_not_empty : (key : Key) → 1 ≤ length (code key)
code_not_empty up_arrow = omega arith
code_not_empty down_arrow = omega arith
code_not_empty right_arrow = omega arith
code_not_empty left_arrow = omega arith
code_not_empty end_key = omega arith
code_not_empty home_key = omega arith
code_not_empty delete_key = omega arith
code_not_empty newline_key = omega arith
code_not_empty backspace_key = omega arith
code_not_empty tab_key = omega arith
code_not_empty (char_key ch) = omega arith

read_keys-empty : (fuel : ℕ) → read_keys fuel [] ≡ []
unfolding read_keys read_input
read_keys-empty zero = refl
read_keys-empty (suc fuel) = read_keys-empty fuel

-- From the codes of any keys, of which no typed byte is null or one that another key sends (a line
-- feed, an escape, a tab, a backspace or a delete), the reader gets these keys in their order, with as
-- much fuel as there are bytes, or more.
pub read_keys-codes :
    (keys : List Key) (fuel : ℕ)
    → AreTyped keys
    → length (codes keys) ≤ fuel
    → read_keys fuel (codes keys) ≡ keys
unfolding read_keys
read_keys-codes [] fuel h e = read_keys-empty fuel
read_keys-codes (key ∷ keys) zero h e =
    absurd (omega (arith, e, code_not_empty key, length-append (code key) (codes keys)))
read_keys-codes (key ∷ keys) (suc fuel) h e =
    ap (λ r. and_then r.0 (read_keys fuel r.1)) (read_input-code key (codes keys) h.0)
    ∙ ap (λ q. key ∷ q)
        (read_keys-codes keys fuel h.1
          (omega (arith, e, code_not_empty key, length-append (code key) (codes keys))))
