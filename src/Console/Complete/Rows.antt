-- ===== src/Console/Complete/Rows.antt =====
-- The rows in which matching commands are printed.
use rehlds_m.Base.{
  ℕ, zero, suc, ◌+◌, ◌≤◌, ◌≡◌, refl, sym, ap, ◌∙◌, true, false, ltb, List, [], ◌∷◌, ◌++◌,
  append_assoc, append-nil, length-drop, length, take, drop, Text, arith,
}
use rehlds_m.Stringpy.{newline}
use rehlds_m.Console.Complete.{cell, print_cells}

-- The cells of a row, one after the other.
abbrev pub row_text : ℕ → List Text → Text
row_text width [] = []
row_text width (command ∷ commands) = cell command width ++ row_text width commands

-- Rows with line feeds between them.
abbrev pub rows_text : ℕ → List (List Text) → Text
rows_text width [] = []
rows_text width (row ∷ []) = row_text width row
rows_text width (row ∷ next ∷ rows) =
    row_text width row ++ (newline ∷ rows_text width (next ∷ rows))

-- The commands in rows of `columns`; as many rows as commands are enough.
abbrev pub rows_of : ℕ → ℕ → List Text → List (List Text)
rows_of rounds columns [] = []
rows_of zero columns (command ∷ commands) = []
rows_of (suc rounds) columns (command ∷ commands) =
    take columns (command ∷ commands) ∷ rows_of rounds columns (drop columns (command ∷ commands))

-- Where a row is full, the next begins.
abbrev next_rows : ℕ → ℕ → List Text → Text
next_rows columns width [] = []
next_rows columns width (command ∷ commands) =
    newline ∷ print_cells columns width 0 (command ∷ commands)

print_cells-row :
    (columns width current room : ℕ) (commands : List Text)
    → current + room ≡ suc columns
    → print_cells (suc columns) width current commands
      ≡ row_text width (take room commands) ++ next_rows (suc columns) width (drop room commands)
unfolding print_cells
print_cells-row columns width current zero [] e = refl
print_cells-row columns width current zero (command ∷ commands) e =
    let full : ltb (suc columns) (current + 1) ≡ true = ground arith in
    let first : ltb (suc columns) 1 ≡ false = ground arith in rw (full, first) refl
print_cells-row columns width current (suc room) [] e = refl
print_cells-row columns width current (suc room) (command ∷ commands) e =
    let open_row : ltb (suc columns) (current + 1) ≡ false = ground arith in
    rw open_row (
      ap (λ t. cell command width ++ t)
        (print_cells-row columns width (current + 1) room commands (omega (arith, e)))
      ∙ sym (append_assoc (cell command width) (row_text width (take room commands)) _))

rows_text-row :
    (columns width rounds : ℕ) (row rest : List Text)
    → length rest ≤ rounds
    → print_cells (suc columns) width 0 rest ≡ rows_text width (rows_of rounds (suc columns) rest)
    → row_text width row ++ next_rows (suc columns) width rest
      ≡ rows_text width (row ∷ rows_of rounds (suc columns) rest)
rows_text-row columns width rounds row [] h e = append-nil (row_text width row)
rows_text-row columns width zero row (command ∷ rest) h e = absurd (omega (arith, h))
rows_text-row columns width (suc rounds) row (command ∷ rest) h e =
    ap (λ t. row_text width row ++ (newline ∷ t)) e

pub print_cells-rows_text :
    (columns width rounds : ℕ) (commands : List Text)
    → length commands ≤ rounds
    → print_cells (suc columns) width 0 commands
      ≡ rows_text width (rows_of rounds (suc columns) commands)
unfolding print_cells
print_cells-rows_text columns width rounds [] h = refl
print_cells-rows_text columns width zero (command ∷ commands) h = absurd (omega (arith, h))
print_cells-rows_text columns width (suc rounds) (command ∷ commands) h =
    let rest = drop columns commands in
    let fits : length rest ≤ rounds = omega (arith, length-drop columns commands) in
    print_cells-row columns width 0 (suc columns) (command ∷ commands) (omega arith)
    ∙ rows_text-row columns width rounds (command ∷ take columns commands) rest fits
        (print_cells-rows_text columns width rounds rest fits)

-- Where no column has a place, every command is on a line of its own, also the first.
abbrev pub lines_text : ℕ → List Text → Text
lines_text width [] = []
lines_text width (command ∷ commands) = newline ∷ (cell command width ++ lines_text width commands)

pub print_cells-lines_text :
    (width current : ℕ) (commands : List Text)
    → print_cells 0 width current commands ≡ lines_text width commands
unfolding print_cells
print_cells-lines_text width current [] = refl
print_cells-lines_text width current (command ∷ commands) =
    let wraps : ltb 0 (current + 1) ≡ true = ground arith in
    rw wraps
      (ap (λ t. newline ∷ (cell command width ++ t)) (print_cells-lines_text width 1 commands))
