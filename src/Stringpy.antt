-- ===== src/Stringpy.antt =====
-- The third-party library stringpy, which libs/util/include/util/string.hpp wraps under
-- `Util::str`. Its functions are parameters of the model, and what the program relies on are the
-- named laws.
pub mod Example
use rehlds_m.Base.{ℕ, ◌≡◌, Bool, true, false, List, [], ◌∷◌, ◌++◌, ◌==◌, Text}

pub record Stringpy : Type 0 where
  pub is_empty_or_space : Text → Bool
  pub is_printable_char : ℕ → Bool
  pub is_printable : Text → Bool
  pub split_lines : Text → List Text
  pub split : Text → List Text
  pub trim : Text → Text
  pub to_lower : Text → Text

abbrev pub newline : ℕ
newline = 10

-- No byte is a line feed.
abbrev pub IsOneLine : Text → Type 0
IsOneLine [] = Unit {0}
IsOneLine (c ∷ s) = ((c == newline) ≡ false) × IsOneLine s

abbrev pub AreLines : List Text → Type 0
AreLines [] = Unit {0}
AreLines (l ∷ ls) = IsOneLine l × AreLines ls

-- Each line with its line feed.
abbrev pub join_lines : List Text → Text
join_lines [] = []
join_lines (l ∷ ls) = l ++ (newline ∷ join_lines ls)

-- Lines with the end that a system gives them: a line feed, on Windows behind a carriage return.
abbrev pub line_end : Bool → Text
line_end false = newline ∷ []
line_end true = 13 ∷ newline ∷ []

abbrev pub join_ended : Bool → List Text → Text
join_ended crlf [] = []
join_ended crlf (l ∷ ls) = l ++ (line_end crlf ++ join_ended crlf ls)

-- Printable lines that are not only space; none of them has a line boundary.
abbrev pub ArePrintable : Stringpy → List Text → Type 0
ArePrintable str [] = Unit {0}
ArePrintable str (l ∷ ls) =
    (str.is_printable l ≡ true) × (str.is_empty_or_space l ≡ false) × ArePrintable str ls

-- The documented behaviour that the input history relies on: the empty text counts as space, a line
-- feed is not printable, and a text of printable lines, each with an end, is split into these.
pub record LineLaws (str : Stringpy) : Type 0 where
  pub empty_is_space : str.is_empty_or_space [] ≡ true
  pub printable_line : (s : Text) → str.is_printable s ≡ true → IsOneLine s
  pub split_join :
      (crlf : Bool) (ls : List Text)
      → ArePrintable str ls
      → str.split_lines (join_ended crlf ls) ≡ ls

abbrev pub AreSpaces : (ℕ → Bool) → Text → Type 0
AreSpaces is_space [] = Unit {0}
AreSpaces is_space (c ∷ s) = (is_space c ≡ true) × AreSpaces is_space s

-- The documented behaviour of trimming: it takes spaces from both ends, and only those; the signs of
-- arguments are no spaces.
pub record TrimLaws (str : Stringpy) : Type 0 where
  pub is_space : ℕ → Bool
  pub no_plus : is_space b'+' ≡ false
  pub no_minus : is_space b'-' ≡ false
  pub takes_spaces :
      (s : Text)
      → (p t : Text) × AreSpaces is_space p × AreSpaces is_space t × (s ≡ p ++ (str.trim s ++ t))
