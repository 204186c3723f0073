-- ===== src/Console/Editing.antt =====
-- The keys that edit the line, one lemma for each: the editor's invariant is kept, and the terminal
-- shows the new line with the cursor at its new place.
use mathlib.Core.List.{reverse, reverse-reverse}
use rehlds_m.Base.{
  ℕ, suc, ◌+◌, ◌-◌, ◌<◌, ◌≡◌, sym, ap, ◌∙◌, inl, inr, true, false, ◌||◌, ◌==◌, leb, Bool-cases, [],
  ◌∷◌, ◌++◌, append_assoc, length, length-append, length-take, take, drop, get_or, take-append-drop,
  Text, arith,
}
use rehlds_m.Stringpy.{Stringpy}
use rehlds_m.Console.{
  ConsoleInput, Output, backspace, carriage_return, backspaces, is_nil, redraw, handle_left_arrow,
  handle_right_arrow, handle_backspace, handle_delete, handle_home, handle_char,
}
use rehlds_m.Console.Terminal.{Screen, at, emit, emit-append, emit-return, is_control}
use rehlds_m.Console.Splice.{erased, inserted}
use rehlds_m.Console.Display.{
  blanks, row, Shows, IsEditing, IsPlain-append, IsPlain-take, IsPlain-drop, right_moves,
  left_moves,
}

-- The new state is one of the editor's, and shown.
abbrev pub Keeps : Screen → ConsoleInput × Output → Type 0
Keeps t (c, out) = IsEditing c × Shows (emit t out) c

-- Nothing printed, nothing changed.
pub Keeps-same : (t : Screen) (c : ConsoleInput) → IsEditing c → Shows t c → Keeps t (c, [])
unfolding emit
Keeps-same t c v s = (v, s)

pub rejoin :
    (line : Text) (cursor k : ℕ)
    → reverse (reverse (take cursor line)) ++ (drop cursor line ++ blanks k) ≡ line ++ blanks k
rejoin line cursor k =
    ap (λ q. q ++ (drop cursor line ++ blanks k)) (reverse-reverse (take cursor line))
    ∙ sym (append_assoc (take cursor line) (drop cursor line) (blanks k))
    ∙ ap (λ q. q ++ blanks k) (take-append-drop cursor line)

-- The line without one byte, and with one more at the cursor.
abbrev without : Text → ℕ → Text
without line cursor = take cursor line ++ drop (cursor + 1) line

without-IsEditing :
    (c : ConsoleInput) (cursor : ℕ)
    → IsEditing c
    → cursor < length c.input_line
    → IsEditing (record c { input_line = without c.input_line cursor; cursor_position = cursor })
without-IsEditing c cursor v h = record {
  inside = omega (
    arith,
    h,
    length-append (take cursor c.input_line) (drop (cursor + 1) c.input_line),
    length-take cursor c.input_line,
  );
  plain =
      IsPlain-append (take cursor c.input_line) (drop (cursor + 1) c.input_line)
        (IsPlain-take c.input_line cursor v.plain) (IsPlain-drop c.input_line (cursor + 1) v.plain);
}

with-IsEditing :
    (c : ConsoleInput) (ch : ℕ)
    → IsEditing c
    → is_control ch ≡ false
    → IsEditing (record c {
      input_line =
          take c.cursor_position c.input_line ++ (ch ∷ drop c.cursor_position c.input_line);
      cursor_position = c.cursor_position + 1;
    })
with-IsEditing c ch v h = record {
  inside = omega (
    arith,
    v.inside,
    length-take c.cursor_position c.input_line,
    length-append (take c.cursor_position c.input_line) (ch ∷ drop c.cursor_position c.input_line),
  );
  plain =
      IsPlain-append (take c.cursor_position c.input_line)
        (ch ∷ drop c.cursor_position c.input_line)
        (IsPlain-take c.input_line c.cursor_position v.plain)
        (h, IsPlain-drop c.input_line c.cursor_position v.plain);
}

module _ (t : Screen) (c : ConsoleInput) (v : IsEditing c) (s : Shows t c) where
  -- From what is printed on the row that is shown.
  pub Keeps-row :
      (c' : ConsoleInput) (out : Output) (k : ℕ)
      → IsEditing c'
      → emit (row s.0 c.input_line c.cursor_position s.1) out
        ≡ row s.0 c'.input_line c'.cursor_position k
      → Keeps t (c', out)
  Keeps-row c' out k w e = (w, (s.0, k, ap (λ r. emit r out) s.2 ∙ e))

  pub handle_left_arrow-Keeps : Keeps t (handle_left_arrow c)
  unfolding handle_left_arrow
  handle_left_arrow-Keeps = elim (Bool-cases (c.cursor_position == 0)) [
    | inl e ↦ rw (e, handle_left_arrow) (Keeps-same t c v s)
    | inr e ↦
        let here : c.cursor_position ≡ suc (c.cursor_position - 1) = ground arith in
        rw (e, handle_left_arrow)
          (Keeps-row (record c { cursor_position = c.cursor_position - 1 }) (backspace ∷ []) s.1
            (record { inside = omega arith; plain = v.plain })
            (ap (λ n. emit (row s.0 c.input_line n s.1) (backspace ∷ [])) here
              ∙ left_moves s.0 c.input_line (c.cursor_position - 1) s.1 (omega arith)))
  ]

  pub handle_right_arrow-Keeps : Keeps t (handle_right_arrow c)
  unfolding handle_right_arrow
  handle_right_arrow-Keeps = elim (Bool-cases (length c.input_line == c.cursor_position)) [
    | inl e ↦ rw (e, handle_right_arrow) (Keeps-same t c v s)
    | inr e ↦
        let there : suc c.cursor_position ≡ c.cursor_position + 1 = omega arith in
        rw (e, handle_right_arrow)
          (Keeps-row (record c { cursor_position = c.cursor_position + 1 })
            (get_or c.input_line c.cursor_position 0 ∷ []) s.1
            (record { inside = ground arith; plain = v.plain })
            (right_moves s.0 c.input_line c.cursor_position s.1 v.plain (ground arith)
              ∙ ap (λ n. row s.0 c.input_line n s.1) there))
  ]

  pub handle_home-Keeps : Keeps t (handle_home c)
  unfolding handle_home
  handle_home-Keeps = elim (Bool-cases (c.cursor_position == 0)) [
    | inl e ↦ rw (e, handle_home) (Keeps-same t c v s)
    | inr e ↦
        rw (e, handle_home)
          (Keeps-row (record c { cursor_position = 0 }) (carriage_return ∷ []) s.1
            (record { inside = omega arith; plain = v.plain })
            (emit-return s.0 (reverse (take c.cursor_position c.input_line))
                (drop c.cursor_position c.input_line ++ blanks s.1)
              ∙ ap (at s.0 []) (rejoin c.input_line c.cursor_position s.1)))
  ]

  pub handle_delete-Keeps : Keeps t (handle_delete c)
  unfolding handle_delete
  handle_delete-Keeps = elim (Bool-cases (leb (length c.input_line) c.cursor_position)) [
    | inl e ↦ rw (e, handle_delete) (Keeps-same t c v s)
    | inr e ↦
        rw (e, handle_delete)
          (Keeps-row (record c { input_line = without c.input_line c.cursor_position })
            (redraw (without c.input_line c.cursor_position) c.cursor_position) (suc s.1)
            (without-IsEditing c c.cursor_position v (ground arith))
            (erased s.0 c.input_line c.cursor_position s.1 v.plain (ground arith)))
  ]

  backspace_cells :
      (cursor : ℕ)
      → c.cursor_position ≡ suc cursor
      → emit
          (row s.0 c.input_line c.cursor_position s.1)
          (backspace ∷ redraw (without c.input_line cursor) cursor)
        ≡ row s.0 (without c.input_line cursor) cursor (suc s.1)
  backspace_cells cursor e =
      ap
        (λ n.
          emit (row s.0 c.input_line n s.1)
            (backspace ∷ redraw (without c.input_line cursor) cursor))
        e
      ∙ emit-append (row s.0 c.input_line (suc cursor) s.1) (backspace ∷ [])
          (redraw (without c.input_line cursor) cursor)
      ∙ ap (λ r. emit r (redraw (without c.input_line cursor) cursor))
          (left_moves s.0 c.input_line cursor s.1 (omega (arith, v.inside)))
      ∙ erased s.0 c.input_line cursor s.1 v.plain (omega (arith, v.inside))

  pub handle_backspace-Keeps : Keeps t (handle_backspace c)
  unfolding handle_backspace
  handle_backspace-Keeps = elim (Bool-cases (c.cursor_position == 0 || is_nil c.input_line)) [
    | inl e ↦ rw (e, handle_backspace) (Keeps-same t c v s)
    | inr e ↦
        let here : c.cursor_position ≡ suc (c.cursor_position - 1) = ground arith in
        let cursor = c.cursor_position - 1 in
        rw (e, handle_backspace)
          (Keeps-row
            (record c { input_line = without c.input_line cursor; cursor_position = cursor })
            (backspace ∷ redraw (without c.input_line cursor) cursor) (suc s.1)
            (without-IsEditing c cursor v (omega (arith, v.inside))) (backspace_cells cursor here))
  ]

  module _ (str : Stringpy)
      (printable : (ch : ℕ) → str.is_printable_char ch ≡ true → is_control ch ≡ false) where
    pub handle_char-Keeps : (ch : ℕ) → Keeps t (handle_char str c ch)
    unfolding handle_char
    handle_char-Keeps ch = elim (Bool-cases (str.is_printable_char ch)) [
      | inr e ↦ rw (e, handle_char) (Keeps-same t c v s)
      | inl e ↦
          let cursor = c.cursor_position in
          let line = take cursor c.input_line ++ (ch ∷ drop cursor c.input_line) in
          rw (e, handle_char)
            (Keeps-row (record c { input_line = line; cursor_position = cursor + 1 })
              (drop cursor line ++ backspaces (length line) (cursor + 1)) (s.1 - 1)
              (with-IsEditing c ch v (printable ch e))
              (inserted s.0 c.input_line cursor s.1 ch v.plain (printable ch e) v.inside))
    ]
