-- ===== src/Stringpy/Example.antt =====
-- A concrete library that has the laws: ASCII, with the six space characters, and lines that end in a
-- line feed, a carriage return or both.
use rehlds_m.Base.{
  sym, subst, inl, inr, Bool-cases, ℕ, ◌+◌, ◌≡◌, refl, ap, ◌∙◌, Bool, true, false, ◌&&◌, ◌||◌,
  if◌then◌else◌, ◌==◌, leb, List, [], ◌∷◌, ◌++◌, Text, arith,
}
use mathlib.Core.List.{reverse, reverse-cons, reverse-append, reverse-reverse}
use rehlds_m.Stringpy.{
  Stringpy, TrimLaws, AreSpaces, LineLaws, newline, IsOneLine, ArePrintable, line_end, join_ended,
}

abbrev pub is_space : ℕ → Bool
is_space c = c == 32 || (leb 9 c && leb c 13)

abbrev all_space : Text → Bool
all_space [] = true
all_space (c ∷ s) = is_space c && all_space s

abbrev pub printable_char : ℕ → Bool
printable_char c = leb 32 c && leb c 126

abbrev pub all_printable : Text → Bool
all_printable [] = true
all_printable (c ∷ s) = printable_char c && all_printable s

abbrev prepend : ℕ → List Text → List Text
prepend c [] = (c ∷ []) ∷ []
prepend c (l ∷ ls) = (c ∷ l) ∷ ls

-- The lines between line feeds, carriage returns or both, behind a carriage return or not.
abbrev lines : Bool → Text → List Text
lines behind [] = []
lines behind (c ∷ s) = elim (c == newline) [
  | true ↦ elim behind [ true ↦ lines false s | false ↦ [] ∷ lines false s ]
  | false ↦ elim (c == 13) [ true ↦ [] ∷ lines true s | false ↦ prepend c (lines false s) ]
]

abbrev trim_front : Text → Text
trim_front [] = []
trim_front (c ∷ s) = if is_space c then trim_front s else c ∷ s

-- The words of a text, behind the letters (in reverse) of the word that is being read.
abbrev words : Text → Text → List Text
words [] [] = []
words (w ∷ ws) [] = reverse (w ∷ ws) ∷ []
words [] (c ∷ s) = words (if is_space c then [] else c ∷ []) s
words (w ∷ ws) (c ∷ s) = elim (is_space c) [
  | true ↦ reverse (w ∷ ws) ∷ words [] s
  | false ↦ words (c ∷ w ∷ ws) s
]

abbrev lower : Text → Text
lower [] = []
lower (c ∷ s) = (if leb 65 c && leb c 90 then c + 32 else c) ∷ lower s

abbrev pub ascii : Stringpy
ascii = record {
  is_empty_or_space = all_space;
  is_printable_char = printable_char;
  is_printable = all_printable;
  split_lines = lines false;
  split = words [];
  trim = λ s. reverse (trim_front (reverse (trim_front s)));
  to_lower = lower;
}

printable_IsOneLine : (s : Text) → all_printable s ≡ true → IsOneLine s
printable_IsOneLine [] h = tt
printable_IsOneLine (c ∷ s) h = (ground arith, printable_IsOneLine s (ground arith))

lines-append :
    (crlf : Bool) (l rest : Text)
    → all_printable l ≡ true
    → lines false (l ++ (line_end crlf ++ rest)) ≡ l ∷ lines false rest
lines-append false [] rest h = refl
lines-append true [] rest h = refl
lines-append crlf (c ∷ l) rest h =
    let feeds : (c == newline) ≡ false = ground (arith, h) in
    let returns : (c == 13) ≡ false = ground (arith, h) in
    let others : all_printable l ≡ true = ground (arith, h) in
    let tail = l ++ (line_end crlf ++ rest) in
    ap
      (λ t. elim t [
        | true ↦ [] ∷ lines false tail
        | false ↦ elim (c == 13) [
          | true ↦ [] ∷ lines true tail
          | false ↦ prepend c (lines false tail)
        ]
      ])
      feeds
    ∙ ap (λ t. elim t [ true ↦ [] ∷ lines true tail | false ↦ prepend c (lines false tail) ])
        returns
    ∙ ap (prepend c) (lines-append crlf l rest others)

lines-join_ended :
    (crlf : Bool) (ls : List Text) → ArePrintable ascii ls → lines false (join_ended crlf ls) ≡ ls
lines-join_ended crlf [] h = refl
lines-join_ended crlf (l ∷ ls) (h, filled, hs) =
    lines-append crlf l (join_ended crlf ls) h ∙ ap (λ r. l ∷ r) (lines-join_ended crlf ls hs)

pub ascii_lines : LineLaws ascii
ascii_lines = record {
  empty_is_space = refl;
  printable_line = printable_IsOneLine;
  split_join = lines-join_ended;
}

trim_front-cut : (s : Text) → (p : Text) × AreSpaces is_space p × (s ≡ p ++ trim_front s)
trim_front-cut [] = ([], tt, refl)
trim_front-cut (c ∷ s) = elim (Bool-cases (is_space c)) [
  | inl e ↦ let (p, h, q) = trim_front-cut s in (c ∷ p, (e, h), rw e (ap (λ t. c ∷ t) q))
  | inr e ↦ ([], tt, rw e refl)
]

AreSpaces-append :
    (s t : Text) → AreSpaces is_space s → AreSpaces is_space t → AreSpaces is_space (s ++ t)
AreSpaces-append [] t h k = k
AreSpaces-append (c ∷ s) t h k = (h.0, AreSpaces-append s t h.1 k)

AreSpaces-reverse : (s : Text) → AreSpaces is_space s → AreSpaces is_space (reverse s)
AreSpaces-reverse [] h = tt
AreSpaces-reverse (c ∷ s) h =
    subst (AreSpaces is_space) (sym (reverse-cons c s))
      (AreSpaces-append (reverse s) (c ∷ []) (AreSpaces-reverse s h.1) (h.0, tt))

pub ascii-takes_spaces :
    (s : Text)
    → (p : Text) × (t : Text) × AreSpaces is_space p
      × AreSpaces is_space t
      × (s ≡ p ++ (reverse (trim_front (reverse (trim_front s))) ++ t))
ascii-takes_spaces s =
    let (p, front, cut) = trim_front-cut s in
    let q = reverse (trim_front s) in
    let (t, back, cut') = trim_front-cut q in
    (
      p,
      reverse t,
      front,
      AreSpaces-reverse t back,
      cut
          ∙ ap (λ x. p ++ x)
              (sym (reverse-reverse (trim_front s))
                ∙ ap reverse cut'
                ∙ reverse-append t (trim_front q)),
    )

abbrev pub ascii_trim : TrimLaws ascii
ascii_trim = record {
  is_space = is_space;
  no_plus = refl;
  no_minus = refl;
  takes_spaces = ascii-takes_spaces;
}
