-- ===== src/ConsoleCommands/Completion.antt =====
-- The tab key of the console, over what the engine finds.
use rehlds_m.Base.{
  ℕ, ◌≡◌, refl, subst, true, Option, some, List, ◌∷◌, ◌++◌, length, Text, starts_with,
}
use rehlds_m.Stringpy.{Stringpy, newline}
use rehlds_m.ConsoleCommands.{find_command_matches}
use rehlds_m.ConsoleCommands.Matches.{find_command_matches-Perm}
use rehlds_m.Console.{ConsoleInput, Output, show_line, clear_input, handle_tab, tab_matches}
use rehlds_m.Console.Complete.{print_command_matches, find_common_command_prefix}
use rehlds_m.Console.Complete.Order.{AreSorted, AllStart}
use rehlds_m.Console.Complete.Prefix.{find_common_command_prefix_greatest}

module _ (str : Stringpy) (text_at : ℕ → Text) (engine : Option (Text → List ℕ))
    (console_width : ℕ) where
  -- Where several commands are found for the line, `handle_tab` returns, and the line becomes the
  -- longest text that all of them start with, with the cursor at its end.
  pub handle_tab-find_command_matches :
      (c : ConsoleInput) (command other : Text) (commands : List Text)
      → find_command_matches str text_at engine c.input_line ≡ command ∷ other ∷ commands
      → (r : ConsoleInput × Output) × (handle_tab
            (find_command_matches str text_at engine)
            console_width
            c
          ≡ some r)
        × (r.0.cursor_position ≡ length r.0.input_line)
        × AllStart r.0.input_line (command ∷ other ∷ commands)
        × ((p : Text)
            → AllStart p (command ∷ other ∷ commands)
            → starts_with p r.0.input_line ≡ true)
  unfolding handle_tab tab_matches
  handle_tab-find_command_matches c command other commands e =
      let s : AreSorted (command ∷ other ∷ commands) =
        subst AreSorted e (find_command_matches-Perm str text_at engine c.input_line).0 in
      let (all, greatest) = find_common_command_prefix_greatest command (other ∷ commands) s in
      let all_matches = command ∷ other ∷ commands in
      let line = find_common_command_prefix all_matches in
      let printed = print_command_matches console_width all_matches in
      (
        (
          show_line (clear_input c).0 line,
          (clear_input c).1 ++ (newline ∷ (printed ++ (newline ∷ line))),
        ),
        rw (e, handle_tab, tab_matches) refl,
        refl,
        all,
        greatest,
      )
