-- ===== src/ConsoleCommands.antt =====
-- libs/model/include/model/console_commands.hpp and libs/model/src/model/console_commands.cpp:
-- `Model::ConsoleCommands`, what the engine finds for a text, cleaned up and sorted. The engine is
-- a parameter: the objects that it adds to the list it is given, and the text at each pointer.
pub mod Sort
pub mod Matches
pub mod Completion
mod Tests
use rehlds_m.Base.{
  ℕ, Bool, true, false, if◌then◌else◌, ◌==◌, Option, none, some, List, [], ◌∷◌, Text,
}
use rehlds_m.Stringpy.{Stringpy}
use rehlds_m.ObjectList.{ObjectList, null, fresh, add}
use rehlds_m.Console.Complete.Order.{text_le}

abbrev pub is_nil : Text → Bool
is_nil [] = true
is_nil (c ∷ s) = false

-- `std::sort` with the order of texts.
unfoldable pub insert : Text → List Text → List Text
insert s [] = s ∷ []
insert s (t ∷ ts) = elim (text_le s t) [ true ↦ s ∷ t ∷ ts | false ↦ t ∷ insert s ts ]

unfoldable pub sort : List Text → List Text
unfolding insert
sort [] = []
sort (s ∷ ss) = insert s (sort ss)

-- The engine's calls of `add`, on the list that it gets.
unfoldable pub add_each : ObjectList → List ℕ → ObjectList
add_each l [] = l
add_each l (object ∷ objects) = add_each (add l object).1 objects

module _ (str : Stringpy) (text_at : ℕ → Text) where
  -- The body of the loop: the match that an object gives, if it gives one.
  unfoldable pub command_match : ℕ → List Text
  command_match object =
      let command_string = str.trim (text_at object) in
      if object == null
      then []
      else if is_nil (text_at object)
      then []
      else if is_nil command_string
      then []
      else str.to_lower command_string ∷ []

  unfoldable pub collect_matches : List ℕ → List Text
  unfolding command_match
  collect_matches [] = []
  collect_matches (object ∷ objects) = elim (command_match object) [
    | [] ↦ collect_matches objects
    | s ∷ ss ↦ s ∷ collect_matches objects
  ]

  -- `get_command_matches` gives the objects that the engine adds; none stands for a null
  -- interface.
  unfoldable pub find_command_matches : Option (Text → List ℕ) → Text → List Text
  unfolding sort collect_matches add_each
  find_command_matches none command = []
  find_command_matches (some get_command_matches) command =
      if is_nil command
      then []
      else sort (collect_matches (add_each fresh (get_command_matches command)).container)
