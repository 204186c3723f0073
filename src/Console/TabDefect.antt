-- ===== src/Console/TabDefect.antt =====
-- A completion that is made with the cursor before the end of the line.
use mathlib.Core.List.{reverse}
use rehlds_m.Base.{
  ℕ, ◌+◌, ◌-◌, ◌≤◌, ◌≡◌, refl, ap, ◌∙◌, false, ltb, some, List, [], ◌∷◌, ◌++◌, length,
  length-append, length-take, length-reverse, take, drop, Text, arith,
}
use rehlds_m.Console.{ConsoleInput, Output, space, show_line, handle_tab, tab_matches}
use rehlds_m.Console.Terminal.{Screen, column, emit, emit-plain, IsPlain}
use rehlds_m.Console.Display.{Shows, IsEditing, IsPlain-append, IsPlain-drop, blanks, row}

module _ (find_command_matches : Text → List Text) (console_width : ℕ) where
  column-typed :
      (above : List Text) (line s : Text) (cursor k : ℕ)
      → cursor ≤ length line
      → IsPlain s
      → column (emit (row above line cursor k) s) ≡ length s + cursor
  column-typed above line s cursor k h p =
      ap column (emit-plain above (reverse (take cursor line)) (drop cursor line ++ blanks k) s p)
      ∙ length-append (reverse s) (reverse (take cursor line))
      ∙ omega
          (arith, h, length-reverse s, length-reverse (take cursor line), length-take cursor line)

  -- On the row that shows the editor's line, one match that is plain and no shorter than the line
  -- makes `handle_tab` return, and leaves the terminal's cursor as many cells before the editor's
  -- as the line had bytes from the cursor on: at the editor's place only if the cursor stood at the
  -- end of the line.
  pub handle_tab_lag :
      (t : Screen) (c : ConsoleInput) (command : Text)
      → IsEditing c
      → Shows t c
      → find_command_matches c.input_line ≡ command ∷ []
      → IsPlain command
      → length c.input_line ≤ length command
      → (r : ConsoleInput × Output) × (handle_tab find_command_matches console_width c ≡ some r)
        × (column (emit t r.1) + (length c.input_line - c.cursor_position) ≡ r.0.cursor_position)
  unfolding handle_tab tab_matches
  handle_tab_lag t c command v s e p h =
      let completion = drop (length c.input_line) command ++ (space ∷ []) in
      let q : IsPlain completion =
        IsPlain-append (drop (length c.input_line) command) (space ∷ [])
          (IsPlain-drop command (length c.input_line) p) (refl, tt) in
      let long : ltb (length command) (length c.input_line) ≡ false = ground arith in
      (
        (show_line c (c.input_line ++ completion), completion),
        rw (e, long, handle_tab, tab_matches) refl,
        omega (
          arith,
          v.inside,
          length-append c.input_line completion,
          ap (λ r. column (emit r completion)) s.2
              ∙ column-typed s.0 c.input_line completion c.cursor_position s.1 v.inside q,
        ),
      )
