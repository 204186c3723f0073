-- ===== src/Console/Complete.antt =====
-- The helpers of libs/view/src/view/console_input.cpp that print matching commands.
pub mod Order
pub mod Prefix
pub mod Rows
pub mod Widths
pub mod Width
use rehlds_m.Base.{
  ℕ, zero, suc, ◌+◌, ◌-◌, ◌/◌, if◌then◌else◌, ◌==◌, ltb, List, [], ◌∷◌, ◌++◌, length, last_or,
  replicate, Text,
}
use rehlds_m.Stringpy.{newline}

-- `std::max_element` by length.
unfoldable pub get_longest_command_length : List Text → ℕ
get_longest_command_length [] = 0
get_longest_command_length (command ∷ commands) =
    let rest = get_longest_command_length commands in
    if ltb (length command) rest then rest else length command

-- `std::mismatch`: the part of the first text before the first difference.
unfoldable pub common_prefix : Text → Text → Text
common_prefix [] t = []
common_prefix (a ∷ s) [] = []
common_prefix (a ∷ s) (b ∷ t) = if a == b then a ∷ common_prefix s t else []

unfoldable pub find_common_command_prefix : List Text → Text
unfolding common_prefix
find_common_command_prefix [] = []
find_common_command_prefix (command ∷ commands) = common_prefix command (last_or commands command)

abbrev pub min_console_width : ℕ
min_console_width = 10

abbrev pub default_console_width : ℕ
default_console_width = 80

-- `"{:<{}}  "`: filled up to the width, and two spaces.
abbrev pub cell : Text → ℕ → Text
cell command width = command ++ (replicate (width - length command) b' ' ++ (b' ' ∷ b' ' ∷ []))

unfoldable pub print_cells : ℕ → ℕ → ℕ → List Text → Text
print_cells total_columns width current_column [] = []
print_cells total_columns width current_column (command ∷ commands) =
    let next = current_column + 1 in
    let wraps = ltb total_columns next in
    (if wraps then newline ∷ [] else [])
    ++ (cell command width ++ print_cells total_columns width (if wraps then 1 else next) commands)

abbrev pub total_columns : ℕ → List Text → ℕ
total_columns console_width commands =
    ((if ltb console_width min_console_width then default_console_width else console_width) - 1)
    / (get_longest_command_length commands + 1)

unfoldable pub print_command_matches : ℕ → List Text → Text
unfolding get_longest_command_length print_cells
print_command_matches console_width commands =
    print_cells (total_columns console_width commands) (get_longest_command_length commands) 0
      commands
