-- ===== src/Console/Recall.antt =====
-- The keys that replace the whole line: the row is cleared, and the new line printed on it.
use mathlib.Core.List.{reverse, reverse-append}
use rehlds_m.Base.{
  ℕ, zero, suc, ◌+◌, ◌-◌, ◌≤◌, ◌≡◌, refl, sym, ap, ap₂, ◌∙◌, subst, inl, inr, true, false, ◌==◌,
  ltb, Bool-cases, List, [], ◌∷◌, ◌++◌, append-nil, length, length-reverse, take, drop, drop-suc,
  take-length, drop-length, get_or, take-append-drop, Text, arith,
}
use rehlds_m.Stringpy.{Stringpy, newline}
use rehlds_m.File.{Stream}
use rehlds_m.Console.{
  ConsoleInput, space, is_nil, rubouts, handle_right_arrow, right_to_end, handle_end, clear_input,
  show_line, handle_newline,
}
use rehlds_m.Console.Terminal.{
  Screen, at, put, emit, emit-append, emit-plain, emit-rubouts, IsPlain,
}
use rehlds_m.Console.Editing.{rejoin, Keeps, Keeps-row}
use rehlds_m.Console.Display.{blanks, row, Shows, IsEditing, IsPlain-drop, overwrites}

abbrev pub at_end : ConsoleInput → ConsoleInput
at_end c = record c { cursor_position = length c.input_line }

right_to_end-all :
    (fuel : ℕ) (c : ConsoleInput)
    → c.cursor_position + fuel ≡ length c.input_line
    → right_to_end fuel c ≡ (at_end c, drop c.cursor_position c.input_line)
unfolding right_to_end handle_right_arrow
right_to_end-all zero c h =
    let there : c.cursor_position ≡ length c.input_line = omega (arith, h) in
    ap₂ (λ n s. (record c { cursor_position = n }, s)) there
      (sym (
        ap (λ n. drop n c.input_line) there
        ∙ drop-length c.input_line (length c.input_line) (omega arith)))
right_to_end-all (suc fuel) c h =
    let go : ltb c.cursor_position (length c.input_line) ≡ true = ground arith in
    let move : (length c.input_line == c.cursor_position) ≡ false = ground arith in
    let next = record c { cursor_position = c.cursor_position + 1 } in
    let over : c.cursor_position + 1 ≡ suc c.cursor_position = omega arith in
    let rest = right_to_end-all fuel next (omega (arith, h)) in
    rw (go, move, right_to_end, handle_right_arrow)
      (ap (λ q. (q.0, get_or c.input_line c.cursor_position 0 ∷ q.1)) rest
        ∙ ap (λ out. (at_end c, out))
            (ap (λ n. get_or c.input_line c.cursor_position 0 ∷ drop n c.input_line) over
              ∙ sym (drop-suc c.input_line c.cursor_position 0 (omega (arith, h)))))

-- The rest of the line is printed, and the cursor goes behind it.
pub handle_end_lem :
    (c : ConsoleInput)
    → IsEditing c
    → handle_end c ≡ (at_end c, drop c.cursor_position c.input_line)
unfolding handle_end
handle_end_lem c v = right_to_end-all _ c (omega (arith, v.inside))

drop-blanks : (n m : ℕ) → drop n (blanks m) ≡ blanks (m - n)
drop-blanks zero m = let e : m ≡ m - 0 = omega arith in ap blanks e
drop-blanks (suc n) zero = let e : 0 ≡ 0 - suc n = omega arith in ap blanks e
drop-blanks (suc n) (suc m) =
    drop-blanks n m ∙ (let e : m - n ≡ suc m - suc n = omega arith in ap blanks e)

blanks-append : (n m : ℕ) → blanks n ++ blanks m ≡ blanks (n + m)
blanks-append zero m = let e : m ≡ 0 + m = omega arith in ap blanks e
blanks-append (suc n) m =
    ap (λ s. space ∷ s) (blanks-append n m)
    ∙ (let e : suc (n + m) ≡ suc n + m = omega arith in ap blanks e)

module _ (above : List Text) where
  pub row_end :
      (line : Text) (k : ℕ) → row above line (length line) k ≡ at above (reverse line) (blanks k)
  row_end line k =
      ap₂ (λ a b. at above (reverse a) (b ++ blanks k))
        (take-length line (length line) (omega arith))
        (drop-length line (length line) (omega arith))

  pub row_empty :
      (line : Text) (cursor k : ℕ)
      → is_nil line ≡ true
      → row above line cursor k ≡ at above [] (blanks k)
  row_empty [] cursor k h =
      ap₂ (λ a b. at above (reverse a) (b ++ blanks k)) (take-length [] cursor (omega arith))
        (drop-length [] cursor (omega arith))
  row_empty (c ∷ line) cursor k h = absurd (ground arith)

  pub typed :
      (line : Text) (m : ℕ)
      → IsPlain line
      → emit (at above [] (blanks m)) line ≡ row above line (length line) (m - length line)
  typed line m p =
      emit-plain above [] (blanks m) line p
      ∙ ap₂ (at above) (append-nil (reverse line)) (drop-blanks (length line) m)
      ∙ sym (row_end line (m - length line))

  -- Text is printed behind the line.
  pub typed_on :
      (line s : Text) (k : ℕ)
      → IsPlain s
      → emit (row above line (length line) k) s
        ≡ row above (line ++ s) (length (line ++ s)) (k - length s)
  typed_on line s k p =
      ap (λ r. emit r s) (row_end line k)
      ∙ emit-plain above (reverse line) (blanks k) s p
      ∙ ap₂ (at above) (sym (reverse-append line s)) (drop-blanks (length s) k)
      ∙ sym (row_end (line ++ s) (k - length s))

  -- What the keys print to clear the row, from the line's end.
  rubbed :
      (line : Text) (k : ℕ)
      → emit (row above line (length line) k) (rubouts (length line))
        ≡ at above [] (blanks (length line + k))
  rubbed line k =
      ap₂ (λ r n. emit r (rubouts n)) (row_end line k) (sym (length-reverse line))
      ∙ emit-rubouts above (reverse line) (blanks k)
      ∙ ap (at above [])
          (ap (λ n. blanks n ++ blanks k) (length-reverse line) ∙ blanks-append (length line) k)

  pub ended :
      (line : Text) (cursor k : ℕ)
      → IsPlain line
      → cursor ≤ length line
      → emit (row above line cursor k) (drop cursor line) ≡ row above line (length line) k
  ended line cursor k p h =
      overwrites above (reverse (take cursor line)) (drop cursor line) (drop cursor line) (blanks k)
        (IsPlain-drop line cursor p) refl
      ∙ ap (λ l. at above l (blanks k))
          (sym (reverse-append (take cursor line) (drop cursor line))
            ∙ ap reverse (take-append-drop cursor line))
      ∙ sym (row_end line k)

-- Of the editor's state, clearing the row moves the cursor alone.
pub clear_input-at_end : (c : ConsoleInput) → IsEditing c → (clear_input c).0 ≡ at_end c
unfolding clear_input
clear_input-at_end c v = elim (Bool-cases (is_nil c.input_line)) [
  | inl e ↦
      rw (e, clear_input)
        (let zeroed : c.cursor_position ≡ length c.input_line =
            omega (arith, nil-length c.input_line e, v.inside) in
          ap (λ n. record c { cursor_position = n }) zeroed)
  | inr e ↦ rw (e, clear_input, handle_end_lem c v) refl
]
  where
    nil-length : (s : Text) → is_nil s ≡ true → length s ≡ 0
    nil-length [] h = refl
    nil-length (b ∷ s) h = absurd (ground arith)

module _ (t : Screen) (c : ConsoleInput) (v : IsEditing c) (s : Shows t c) where
  pub handle_end-Keeps : Keeps t (handle_end c)
  handle_end-Keeps =
      subst (λ r. Keeps t r) (sym (handle_end_lem c v))
        (Keeps-row t c v s (at_end c) (drop c.cursor_position c.input_line) s.1
          (record { inside = omega arith; plain = v.plain })
          (ended s.0 c.input_line c.cursor_position s.1 v.plain v.inside))

  -- The row is empty after `clear_input`, and the cursor at its start.
  pub clear_input-clears : (m : ℕ) × (emit t (clear_input c).1 ≡ at s.0 [] (blanks m))
  unfolding clear_input emit
  clear_input-clears = elim (Bool-cases (is_nil c.input_line)) [
    | inl e ↦ rw (e, clear_input) (s.1, s.2 ∙ row_empty s.0 c.input_line c.cursor_position s.1 e)
    | inr e ↦
        rw (e, clear_input, handle_end_lem c v)
          (
            length c.input_line + s.1,
            emit-append t (drop c.cursor_position c.input_line) (rubouts (length c.input_line))
                ∙ ap
                    (λ r.
                      emit (emit r (drop c.cursor_position c.input_line))
                        (rubouts (length c.input_line)))
                    s.2
                ∙ ap (λ r. emit r (rubouts (length c.input_line)))
                    (ended s.0 c.input_line c.cursor_position s.1 v.plain v.inside)
                ∙ rubbed s.0 c.input_line s.1,
          )
  ]

  -- A text printed on the cleared row.
  pub shown_anew :
      (c' : ConsoleInput) (text : Text)
      → IsPlain text
      → Keeps t (show_line c' text, (clear_input c).1 ++ text)
  shown_anew c' text p =
      let (m, e) = clear_input-clears in
      (
        record { inside = omega arith; plain = p },
        (
          s.0,
          m - length text,
          emit-append t (clear_input c).1 text ∙ ap (λ r. emit r text) e ∙ typed s.0 text m p,
        ),
      )

  pub handle_newline-Keeps : (str : Stringpy) (io : Stream) → Keeps t (handle_newline str io c)
  unfolding handle_newline emit put
  handle_newline-Keeps str io = (
    record { inside = omega arith; plain = tt },
    (
      (c.input_line ++ blanks s.1) ∷ s.0,
      0,
      ap (λ r. put r newline) s.2
          ∙ ap (λ l. at (l ∷ s.0) [] []) (rejoin c.input_line c.cursor_position s.1),
    ),
  )

  -- After any other text, a line feed starts a row that is as good as cleared.
  pub shown_below :
      (c' : ConsoleInput) (out line : Text)
      → IsPlain line
      → Keeps t (show_line c' line, out ++ (newline ∷ line))
  unfolding emit put
  shown_below c' out line p =
      let u = emit t out in
      (
        record { inside = omega arith; plain = p },
        (
          (reverse u.left ++ u.right) ∷ u.above,
          0 - length line,
          emit-append t out (newline ∷ line)
              ∙ typed ((reverse u.left ++ u.right) ∷ u.above) line 0 p,
        ),
      )
