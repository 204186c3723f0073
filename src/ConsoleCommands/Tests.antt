-- ===== src/ConsoleCommands/Tests.antt =====
-- A small engine, and the theorems at it.
use mathlib.Core.List.{Perm, map}
use rehlds_m.Base.{
  ℕ, ◌≡◌, refl, ◌==◌, true, if◌then◌else◌, Option, some, none, List, [], ◌∷◌, length, Text,
  starts_with,
}
use rehlds_m.Stringpy.Example.{ascii}
use rehlds_m.History.{new_history}
use rehlds_m.ObjectList.{add, add_tail}
use rehlds_m.ConsoleCommands.{
  find_command_matches, sort, insert, collect_matches, command_match, add_each,
}
use rehlds_m.ConsoleCommands.Matches.{keep, is_match, clean, find_command_matches-Perm}
use rehlds_m.ConsoleCommands.Completion.{handle_tab-find_command_matches}
use rehlds_m.Console.{ConsoleInput, Output, handle_tab}
use rehlds_m.Console.Complete.Order.{AreSorted, AllStart}

-- "maps ", "MAP" and " " at the pointers 1, 2 and 3.
abbrev text_at : ℕ → Text
text_at object =
    if object == 1
    then b'm' ∷ b'a' ∷ b'p' ∷ b's' ∷ b' ' ∷ []
    else if object == 2
    then b'M' ∷ b'A' ∷ b'P' ∷ []
    else b' ' ∷ []

-- The null pointer among them.
abbrev small_engine : Option (Text → List ℕ)
small_engine = some (λ command. 1 ∷ 0 ∷ 3 ∷ 2 ∷ [])

abbrev map_text : Text
map_text = b'm' ∷ b'a' ∷ b'p' ∷ []

abbrev maps_text : Text
maps_text = b'm' ∷ b'a' ∷ b'p' ∷ b's' ∷ []

found_maps : find_command_matches ascii text_at small_engine (b'm' ∷ []) ≡ map_text ∷ maps_text ∷ []
unfolding find_command_matches sort insert collect_matches command_match add_each add add_tail
found_maps = refl

find_command_matches-Perm_example :
    let found = find_command_matches ascii text_at small_engine (b'm' ∷ []) in
    AreSorted found
    × Perm found (map (clean ascii text_at) (keep (is_match ascii text_at) (1 ∷ 0 ∷ 3 ∷ 2 ∷ [])))
find_command_matches-Perm_example = find_command_matches-Perm ascii text_at small_engine (b'm' ∷ [])

abbrev typed_m : ConsoleInput
typed_m = record {
  input_presenter = record {
    input_queue = [];
    input_history = new_history (b'f' ∷ []);
    disk = λ path. none;
  };
  input_line = b'm' ∷ [];
  saved_input = none;
  cursor_position = 0;
}

handle_tab-find_command_matches_example :
    (r : ConsoleInput × Output) × (handle_tab
        (find_command_matches ascii text_at small_engine)
        80
        typed_m
      ≡ some r)
    × (r.0.cursor_position ≡ length r.0.input_line)
    × AllStart r.0.input_line (map_text ∷ maps_text ∷ [])
    × ((p : Text) → AllStart p (map_text ∷ maps_text ∷ []) → starts_with p r.0.input_line ≡ true)
handle_tab-find_command_matches_example =
    handle_tab-find_command_matches ascii text_at small_engine 80 typed_m map_text maps_text []
      found_maps
