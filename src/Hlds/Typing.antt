-- ===== src/Hlds/Typing.antt =====
-- The keys that type lines, and the bytes that a terminal sends for them.
use rehlds_m.Base.{
  ◌≡◌, refl, sym, ap, ◌∙◌, true, false, List, [], ◌∷◌, ◌++◌, append-nil, append_assoc, Text,
}
use rehlds_m.Stringpy.{Stringpy, newline, join_lines}
use rehlds_m.Console.Keys.{Key, newline_key, char_key}
use rehlds_m.Console.KeyCodes.{codes, is_command_byte, AreTyped}
use rehlds_m.Hlds.{Act, presses, ends, loops}

abbrev pub with_line_feed : Text → Text
with_line_feed line = line ++ (newline ∷ [])

-- The keys of a text, and of lines that are entered.
abbrev pub typing : Text → List Key
typing [] = []
typing (ch ∷ s) = char_key ch ∷ typing s

abbrev pub typing_lines : List Text → List Key
typing_lines [] = []
typing_lines (line ∷ lines) = typing line ++ (newline_key ∷ typing_lines lines)

abbrev pub keys_of : List Act → List Key
keys_of [] = []
keys_of (presses key ∷ acts) = key ∷ keys_of acts
keys_of (ends ∷ acts) = keys_of acts
keys_of (loops goes_on ∷ acts) = keys_of acts

module _ (str : Stringpy) where
  -- Bytes that the console takes as they are.
  abbrev pub IsPlainLine : Text → Type 0
  IsPlainLine [] = Unit {0}
  IsPlainLine (ch ∷ s) =
      (str.is_printable_char ch ≡ true) × (is_command_byte ch ≡ false) × IsPlainLine s

  abbrev pub ArePlainLines : List Text → Type 0
  ArePlainLines [] = Unit {0}
  ArePlainLines (line ∷ lines) = IsPlainLine line × ArePlainLines lines

  -- Keys that type a text or enter it.
  abbrev pub Types : Key → Type 0
  Types (char_key ch) = str.is_printable_char ch ≡ true
  Types newline_key = Unit {0}
  Types other = ⊥

  abbrev pub AllType : List Key → Type 0
  AllType [] = Unit {0}
  AllType (key ∷ keys) = Types key × AllType keys

-- What such keys enter, from a line that is there.
abbrev pub entered : Text → List Key → List Text
entered line [] = []
entered line (char_key ch ∷ keys) = entered (line ++ (ch ∷ [])) keys
entered line (newline_key ∷ keys) = line ∷ entered [] keys
entered line (other ∷ keys) = entered line keys

entered-typing :
    (line s : Text) (keys : List Key) → entered line (typing s ++ keys) ≡ entered (line ++ s) keys
entered-typing line [] keys = ap (λ l. entered l keys) (sym (append-nil line))
entered-typing line (ch ∷ s) keys =
    entered-typing (line ++ (ch ∷ [])) s keys
    ∙ ap (λ l. entered l keys) (append_assoc line (ch ∷ []) s)

pub entered-typing_lines : (lines : List Text) → entered [] (typing_lines lines) ≡ lines
entered-typing_lines [] = refl
entered-typing_lines (line ∷ lines) =
    entered-typing [] line (newline_key ∷ typing_lines lines)
    ∙ ap (λ q. line ∷ q) (entered-typing_lines lines)

codes-append : (s : Text) (keys : List Key) → codes (typing s ++ keys) ≡ s ++ codes keys
codes-append [] keys = refl
codes-append (ch ∷ s) keys = ap (λ q. ch ∷ q) (codes-append s keys)

pub codes-typing_lines : (lines : List Text) → codes (typing_lines lines) ≡ join_lines lines
codes-typing_lines [] = refl
codes-typing_lines (line ∷ lines) =
    codes-append line (newline_key ∷ typing_lines lines)
    ∙ ap (λ q. line ++ (newline ∷ q)) (codes-typing_lines lines)

module _ (str : Stringpy) where
  AreTyped-typing :
      (s : Text) (keys : List Key) → IsPlainLine str s → AreTyped keys → AreTyped (typing s ++ keys)
  AreTyped-typing [] keys h k = k
  AreTyped-typing (ch ∷ s) keys (p, c, h) k = (c, AreTyped-typing s keys h k)

  pub AreTyped-typing_lines :
      (lines : List Text) → ArePlainLines str lines → AreTyped (typing_lines lines)
  AreTyped-typing_lines [] h = tt
  AreTyped-typing_lines (line ∷ lines) (h, hs) =
      AreTyped-typing line (newline_key ∷ typing_lines lines) h (tt, AreTyped-typing_lines lines hs)

  AllType-typing :
      (s : Text) (keys : List Key)
      → IsPlainLine str s
      → AllType str keys
      → AllType str (typing s ++ keys)
  AllType-typing [] keys h k = k
  AllType-typing (ch ∷ s) keys (p, c, h) k = (p, AllType-typing s keys h k)

  pub AllType-typing_lines :
      (lines : List Text) → ArePlainLines str lines → AllType str (typing_lines lines)
  AllType-typing_lines [] h = tt
  AllType-typing_lines (line ∷ lines) (h, hs) =
      AllType-typing line (newline_key ∷ typing_lines lines) h (tt, AllType-typing_lines lines hs)
