-- ===== src/Console/Complete/Width/Tests.antt =====
-- The matches on a console of 80 places, as COLUMNS tells.
use rehlds_m.Base.{◌≡◌, refl, none, some, [], ◌∷◌, replicate, Text}
use rehlds_m.Base.Int.{pos}
use rehlds_m.Console.Complete.{get_longest_command_length, print_command_matches}
use rehlds_m.Console.Complete.Rows.{rows_text}
use rehlds_m.Console.Complete.Widths.{Layout, print_command_matches-Layout}
use rehlds_m.Console.Complete.Width.{linux_console_width, windows_console_width}

abbrev eighty : Text
eighty = b'8' ∷ b'0' ∷ []

linux_console_width_test : linux_console_width none (some eighty) ≡ 80
unfolding linux_console_width
linux_console_width_test = refl

windows_console_width_test : windows_console_width (some (pos 0, pos 79)) ≡ 80
unfolding windows_console_width
windows_console_width_test = refl

abbrev maps : Text
maps = b'm' ∷ b'a' ∷ b'p' ∷ b's' ∷ []

abbrev say : Text
say = b's' ∷ b'a' ∷ b'y' ∷ []

print_command_matches-Layout_example :
    Layout 80 4 15
      (maps ∷ say ∷ [])
      (print_command_matches (linux_console_width none (some eighty)) (maps ∷ say ∷ []))
unfolding linux_console_width get_longest_command_length
print_command_matches-Layout_example =
    print_command_matches-Layout (linux_console_width none (some eighty)) (maps ∷ say ∷ [])

-- Sixteen commands of four bytes: the first row takes 90 places of the 80.
wide_test :
    print_command_matches 80 (replicate 16 maps)
    ≡ rows_text 4 (replicate 15 maps ∷ (maps ∷ []) ∷ [])
unfolding print_command_matches
wide_test = refl
