-- ===== src/Console/Complete/Widths.antt =====
-- The widths of the rows in which matching commands are printed.
use rehlds_m.Base.{
  ℕ, zero, suc, ◌+◌, ◌-◌, ◌*◌, ◌/◌, ◌≤◌, ◌<◌, ◌≡◌, refl, ap, ◌∙◌, inl, inr, Bool-cases,
  if◌then◌else◌, ltb, List, [], ◌∷◌, ◌++◌, length-drop, length, length-append, length-replicate,
  replicate, take, length-take, drop, min, ◌⊎◌, Text, arith,
}
use rehlds_m.Console.Complete.{
  get_longest_command_length, min_console_width, default_console_width, cell, print_cells,
  total_columns, print_command_matches,
}
use rehlds_m.Console.Complete.Rows.{
  row_text, rows_text, rows_of, lines_text, print_cells-rows_text, print_cells-lines_text,
}

-- No command is longer than a width.
abbrev AreWithin : ℕ → List Text → Type 0
AreWithin width [] = Unit {0}
AreWithin width (command ∷ commands) = (length command ≤ width) × AreWithin width commands

AreWithin-mono :
    (width wider : ℕ) (commands : List Text)
    → width ≤ wider
    → AreWithin width commands
    → AreWithin wider commands
AreWithin-mono width wider [] h k = tt
AreWithin-mono width wider (command ∷ commands) h (k, ks) =
    (omega (arith, h, k), AreWithin-mono width wider commands h ks)

longest-cons :
    (command : Text) (commands : List Text)
    → let longest = get_longest_command_length (command ∷ commands) in
      (length command ≤ longest) × (get_longest_command_length commands ≤ longest)
unfolding get_longest_command_length
longest-cons command commands =
    let rest = get_longest_command_length commands in
    elim (Bool-cases (ltb (length command) rest)) [
      | inl e ↦ rw (e, get_longest_command_length) (ground arith, omega arith)
      | inr e ↦ rw (e, get_longest_command_length) (omega arith, ground arith)
    ]

longest-AreWithin :
    (commands : List Text) → AreWithin (get_longest_command_length commands) commands
longest-AreWithin [] = tt
longest-AreWithin (command ∷ commands) =
    let (first, others) = longest-cons command commands in
    (
      first,
      AreWithin-mono (get_longest_command_length commands)
          (get_longest_command_length (command ∷ commands)) commands others
          (longest-AreWithin commands),
    )

AreWithin-take :
    (width n : ℕ) (commands : List Text)
    → AreWithin width commands
    → AreWithin width (take n commands)
AreWithin-take width zero commands h = tt
AreWithin-take width (suc n) [] h = tt
AreWithin-take width (suc n) (command ∷ commands) (h, hs) = (h, AreWithin-take width n commands hs)

AreWithin-drop :
    (width n : ℕ) (commands : List Text)
    → AreWithin width commands
    → AreWithin width (drop n commands)
AreWithin-drop width zero commands h = h
AreWithin-drop width (suc n) [] h = tt
AreWithin-drop width (suc n) (command ∷ commands) (h, hs) = AreWithin-drop width n commands hs

row_text-length :
    (width : ℕ) (row : List Text)
    → AreWithin width row
    → length (row_text width row) ≡ length row * (width + 2)
row_text-length width [] h = omega arith
row_text-length width (command ∷ row) (h, hs) =
    let padding : Text = replicate (width - length command) b' ' in
    let gap : Text = b' ' ∷ b' ' ∷ [] in
    let one : length (cell command width) ≡ width + 2 = omega (
      arith,
      length-append command (padding ++ gap),
      length-append padding gap,
      length-replicate {A = ℕ} (width - length command) b' ',
    ) in
    let all : length (row_text width row) ≡ length row * (width + 2) =
      row_text-length width row hs in
    length-append (cell command width) (row_text width row) ∙ grind arith

-- Every row but the last has all the columns, and each takes its cells of the width and two spaces.
abbrev pub AreRows : ℕ → ℕ → List (List Text) → Type 0
AreRows width columns [] = Unit {0}
AreRows width columns (row ∷ []) =
    (length row ≤ columns) × (length (row_text width row) ≡ length row * (width + 2))
AreRows width columns (row ∷ next ∷ rows) =
    (length row ≡ columns)
    × (length (row_text width row) ≡ columns * (width + 2))
    × AreRows width columns (next ∷ rows)

AreRows-row :
    (width columns rounds : ℕ) (row rest : List Text)
    → AreWithin width row
    → length rest ≤ rounds
    → length row ≤ columns
    → (1 ≤ length rest → length row ≡ columns)
    → AreRows width columns (rows_of rounds columns rest)
    → AreRows width columns (row ∷ rows_of rounds columns rest)
AreRows-row width columns rounds row [] within h le full a = (le, row_text-length width row within)
AreRows-row width columns zero row (command ∷ rest) within h le full a = absurd (omega (arith, h))
AreRows-row width columns (suc rounds) row (command ∷ rest) within h le full a =
    let n : length row ≡ columns = full (omega arith) in
    (n, row_text-length width row within ∙ ap (λ k. k * (width + 2)) n, a)

rows_of-AreRows :
    (width columns rounds : ℕ) (commands : List Text)
    → AreWithin width commands
    → length commands ≤ rounds
    → AreRows width (suc columns) (rows_of rounds (suc columns) commands)
rows_of-AreRows width columns rounds [] within h = tt
rows_of-AreRows width columns zero (command ∷ commands) within h = absurd (omega (arith, h))
rows_of-AreRows width columns (suc rounds) (command ∷ commands) within h =
    let all = command ∷ commands in
    let row = take (suc columns) all in
    let rest = drop columns commands in
    let left : length rest ≡ length commands - columns = length-drop columns commands in
    let taken : length row ≡ min (suc columns) (suc (length commands)) =
      length-take (suc columns) all in
    AreRows-row width (suc columns) rounds row rest (AreWithin-take width (suc columns) all within)
      (omega arith) (omega arith) (λ more. omega arith)
      (rows_of-AreRows width columns rounds rest (AreWithin-drop width columns commands within.1)
        (omega arith))

abbrev pub used_width : ℕ → ℕ
used_width console_width =
    if ltb console_width min_console_width then default_console_width else console_width

-- The layout of the matches, for the places that the console has: without a column they are lines,
-- otherwise rows.
abbrev pub Layout : ℕ → ℕ → ℕ → List Text → Text → Type 0
Layout places longest columns commands printed =
    ((columns ≡ 0) × (places ≤ longest + 1) × (printed ≡ lines_text longest commands))
    ⊎ (let rows = rows_of (length commands) columns commands in
        (1 ≤ columns)
        × (columns * (longest + 2) < places + columns)
        × (printed ≡ rows_text longest rows)
        × AreRows longest columns rows)

Layout-by :
    (places longest columns : ℕ) (commands : List Text)
    → AreWithin longest commands
    → columns ≡ (places - 1) / (longest + 1)
    → 1 ≤ places
    → Layout places longest columns commands (print_cells columns longest 0 commands)
Layout-by places longest zero commands within e p =
    inl (refl, grind arith, print_cells-lines_text longest 0 commands)
Layout-by places longest (suc columns) commands within e p = inr (
  omega arith,
  grind arith,
  print_cells-rows_text columns longest (length commands) commands (omega arith),
  rows_of-AreRows longest columns (length commands) commands within (omega arith),
)

used_width_pos : (console_width : ℕ) → 1 ≤ used_width console_width
used_width_pos console_width = ground arith

-- Of the places that the console has, 80 where it tells of fewer than 10: if the longest command and
-- a space leave none, every command is printed on a line of its own, behind a line feed; otherwise
-- the commands stand in rows, in their order, with line feeds between them, every row but the last
-- with as many as the last may have at most, each filled up to the longest and with two spaces, and a
-- row takes fewer places than the console has and one for each column.
pub print_command_matches-Layout :
    (console_width : ℕ) (commands : List Text)
    → Layout
        (used_width console_width)
        (get_longest_command_length commands)
        (total_columns console_width commands)
        commands
        (print_command_matches console_width commands)
unfolding print_command_matches
print_command_matches-Layout console_width commands =
    Layout-by (used_width console_width) (get_longest_command_length commands)
      (total_columns console_width commands) commands (longest-AreWithin commands) refl
      (used_width_pos console_width)
