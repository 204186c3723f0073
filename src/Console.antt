-- ===== src/Console.antt =====
-- libs/view/include/view/console_input.hpp and libs/view/src/view/console_input.cpp:
-- `View::ConsoleInput`, the line editor of the server console. A handler returns the new state and
-- the bytes that it prints. The input thread is its only user; Hlds has its start and end, and the
-- waiting for input is left out.
pub mod Complete
pub mod Terminal
pub mod Keys
pub mod KeyCodes
pub mod Windows
pub mod Session
pub mod Shown
pub mod Splice
pub mod Editing
pub mod Recall
pub mod Display
pub mod TabDefect
pub mod SavedDefect
mod Tests
use rehlds_m.Base.{
  ℕ, zero, suc, ◌+◌, ◌-◌, Bool, true, false, ◌||◌, not, if◌then◌else◌, ◌==◌, ltb, leb, Option, none,
  some, List, [], ◌∷◌, ◌++◌, length, take, drop, get_or, replicate, Text,
}
use rehlds_m.Stringpy.{Stringpy, newline}
use rehlds_m.File.{Stream}
use rehlds_m.Presenter.{InputPresenter, history_previous, history_next, enqueue_input}
use Complete.{print_command_matches, find_common_command_prefix}

pub record ConsoleInput : Type 0 where
  pub input_presenter : InputPresenter
  pub input_line : Text
  pub saved_input : Option Text
  pub cursor_position : ℕ

abbrev pub Output : Type 0
Output = Text

abbrev pub backspace : ℕ
backspace = 8

abbrev pub carriage_return : ℕ
carriage_return = 13

abbrev pub space : ℕ
space = b' '

-- `for (auto i = from; i > to; --i) std::cout << '\b'`
abbrev pub backspaces : ℕ → ℕ → Output
backspaces from to = replicate (from - to) backspace

abbrev pub is_nil : Text → Bool
is_nil [] = true
is_nil (c ∷ s) = false

unfoldable pub handle_left_arrow : ConsoleInput → ConsoleInput × Output
handle_left_arrow c =
    if c.cursor_position == 0
    then (c, [])
    else (record c { cursor_position = c.cursor_position - 1 }, backspace ∷ [])

unfoldable pub handle_right_arrow : ConsoleInput → ConsoleInput × Output
handle_right_arrow c = if length c.input_line == c.cursor_position then (c, []) else (
  record c { cursor_position = c.cursor_position + 1 },
  get_or c.input_line c.cursor_position 0 ∷ [],
)

-- What is printed after a byte was erased: the rest of the line, a space over its old end, and the
-- way back.
abbrev pub redraw : Text → ℕ → Output
redraw line cursor = drop cursor line ++ (space ∷ backspaces (length line + 1) cursor)

unfoldable pub handle_backspace : ConsoleInput → ConsoleInput × Output
handle_backspace c =
    let cursor = c.cursor_position - 1 in
    let line = take cursor c.input_line ++ drop (cursor + 1) c.input_line in
    if c.cursor_position == 0 || is_nil c.input_line
    then (c, [])
    else (record c { input_line = line; cursor_position = cursor }, backspace ∷ redraw line cursor)

unfoldable pub handle_delete : ConsoleInput → ConsoleInput × Output
handle_delete c =
    let cursor = c.cursor_position in
    let line = take cursor c.input_line ++ drop (cursor + 1) c.input_line in
    if leb (length c.input_line) cursor
    then (c, [])
    else (record c { input_line = line }, redraw line cursor)

unfoldable pub handle_home : ConsoleInput → ConsoleInput × Output
handle_home c =
    if not (c.cursor_position == 0)
    then (record c { cursor_position = 0 }, carriage_return ∷ [])
    else (c, [])

-- The loop of `handle_end`, on fuel: the places to the end of the line are enough.
unfoldable pub right_to_end : ℕ → ConsoleInput → ConsoleInput × Output
unfolding handle_right_arrow
right_to_end zero c = (c, [])
right_to_end (suc fuel) c =
    let (c', out) = handle_right_arrow c in
    let rest = right_to_end fuel c' in
    if ltb c.cursor_position (length c.input_line) then (rest.0, out ++ rest.1) else (c, [])

unfoldable pub handle_end : ConsoleInput → ConsoleInput × Output
unfolding right_to_end
handle_end c = right_to_end (length c.input_line - c.cursor_position) c

abbrev pub rubouts : ℕ → Output
rubouts zero = []
rubouts (suc n) = backspace ∷ space ∷ backspace ∷ rubouts n

unfoldable pub clear_input : ConsoleInput → ConsoleInput × Output
unfolding handle_end
clear_input c =
    let (c', out) = handle_end c in
    if is_nil c.input_line then (c, []) else (c', out ++ rubouts (length c'.input_line))

-- The line becomes another text, printed from the start of the row, with the cursor at its end.
abbrev pub show_line : ConsoleInput → Text → ConsoleInput
show_line c line = record c { input_line = line; cursor_position = length line }

abbrev pub save_once : Option Text → Text → Option Text
save_once none line = some line
save_once (some s) line = some s

unfoldable pub show_previous : ConsoleInput → Option Text → ConsoleInput × Output
unfolding clear_input
show_previous c none = (c, [])
show_previous c (some previous_input) =
    let c' = record c { saved_input = save_once c.saved_input c.input_line } in
    (show_line (clear_input c').0 previous_input, (clear_input c').1 ++ previous_input)

unfoldable pub handle_up_arrow : ConsoleInput → ConsoleInput × Output
unfolding show_previous
handle_up_arrow c =
    let (previous_input, p) = history_previous c.input_presenter in
    show_previous (record c { input_presenter = p }) previous_input

-- The line that `handle_down_arrow` shows, and the saved input that it leaves.
abbrev pub down_line : Option Text → Option Text → Option (Text × Option Text)
down_line (some text) saved = some (text, saved)
down_line none (some saved) = some (saved, none)
down_line none none = none

unfoldable pub show_next : ConsoleInput → Option (Text × Option Text) → ConsoleInput × Output
unfolding clear_input
show_next c none = (c, [])
show_next c (some (line, saved)) =
    (record (show_line (clear_input c).0 line) { saved_input = saved }, (clear_input c).1 ++ line)

unfoldable pub handle_down_arrow : ConsoleInput → ConsoleInput × Output
unfolding show_next
handle_down_arrow c =
    let (next_input, p) = history_next c.input_presenter in
    show_next (record c { input_presenter = p }) (down_line next_input c.saved_input)

module _ (str : Stringpy) where
  -- Logging of a failed save is left out here; `Presenter.enqueue_input` returns it.
  unfoldable pub handle_newline : Stream → ConsoleInput → ConsoleInput × Output
  handle_newline io c = (
    record c {
      input_presenter = (enqueue_input str io c.input_presenter c.input_line).0;
      input_line = [];
      cursor_position = 0;
    },
    newline ∷ [],
  )

  unfoldable pub handle_char : ConsoleInput → ℕ → ConsoleInput × Output
  handle_char c ch =
      let cursor = c.cursor_position in
      let line = take cursor c.input_line ++ (ch ∷ drop cursor c.input_line) in
      if not (str.is_printable_char ch) then (c, []) else (
        record c { input_line = line; cursor_position = cursor + 1 },
        drop cursor line ++ backspaces (length line) (cursor + 1),
      )

-- What the engine finds for a text, and the width of the console.
module _ (find_command_matches : Text → List Text) (console_width : ℕ) where
  -- `none` is the exception of `substr` on a match that is shorter than the line.
  unfoldable pub tab_matches : ConsoleInput → List Text → Option (ConsoleInput × Output)
  unfolding clear_input
  tab_matches c [] = some (c, [])
  tab_matches c (command ∷ []) =
      let completion = drop (length c.input_line) command ++ (space ∷ []) in
      let line = c.input_line ++ completion in
      if ltb (length command) (length c.input_line)
      then none
      else some (show_line c line, completion)
  tab_matches c (command ∷ other ∷ commands) =
      let all = command ∷ other ∷ commands in
      let line = find_common_command_prefix all in
      some (
        show_line (clear_input c).0 line,
        (clear_input c).1
            ++ (newline ∷ (print_command_matches console_width all ++ (newline ∷ line))),
      )

  unfoldable pub handle_tab : ConsoleInput → Option (ConsoleInput × Output)
  unfolding tab_matches
  handle_tab c = tab_matches c (find_command_matches c.input_line)
