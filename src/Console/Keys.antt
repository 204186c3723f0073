-- ===== src/Console/Keys.antt =====
-- libs/view/src/view/linux/console_input.cpp: `ConsoleInput::read_input` and `handle_escape`, the
-- bytes of the terminal as keys. What is read are the bytes of one run of the thread's loop; a
-- failed or empty read is the byte 0, also at the end of the bytes. The waiting for input and the
-- logging of a failed read are left out.
use rehlds_m.Base.{
  ℕ, zero, suc, ◌||◌, not, if◌then◌else◌, ◌==◌, Option, none, some, List, [], ◌∷◌, Text,
}
use rehlds_m.Stringpy.{Stringpy, newline}
use rehlds_m.File.{Stream}
use rehlds_m.Console.{
  ConsoleInput, Output, backspace, handle_left_arrow, handle_right_arrow, handle_backspace,
  handle_delete, handle_home, handle_end, handle_up_arrow, handle_down_arrow, handle_newline,
  handle_char, handle_tab,
}

pub data Key : Type 0 where
  up_arrow : Key
  down_arrow : Key
  right_arrow : Key
  left_arrow : Key
  end_key : Key
  home_key : Key
  delete_key : Key
  newline_key : Key
  backspace_key : Key
  tab_key : Key
  char_key : ℕ → Key

abbrev pub escape : ℕ
escape = 27

abbrev pub delete_byte : ℕ
delete_byte = 127

abbrev pub tab : ℕ
tab = 9

-- `read_char_from_stdin`, with the bytes left.
abbrev pub read_char : Text → ℕ × Text
read_char [] = (0, [])
read_char (b ∷ s) = (b, s)

-- `case '3'`.
abbrev delete_code : Text → Option Key × Text
delete_code s = let (b, rest) = read_char s in (if b == b'~' then some delete_key else none, rest)

-- The second `read_char_from_stdin`, and the key of its byte.
abbrev escape_code : Text → Option Key × Text
escape_code s =
    let (b, rest) = read_char s in
    if b == b'A'
    then (some up_arrow, rest)
    else if b == b'B'
    then (some down_arrow, rest)
    else if b == b'C'
    then (some right_arrow, rest)
    else if b == b'D'
    then (some left_arrow, rest)
    else if b == b'F'
    then (some end_key, rest)
    else if b == b'H'
    then (some home_key, rest)
    else if b == b'3'
    then delete_code rest
    else (none, rest)

unfoldable pub handle_escape : Text → Option Key × Text
handle_escape s =
    let (b, rest) = read_char s in if not (b == b'[') then (none, rest) else escape_code rest

unfoldable pub read_input : Text → Option Key × Text
unfolding handle_escape
read_input s =
    let (b, rest) = read_char s in
    if b == 0
    then (none, rest)
    else if b == newline
    then (some newline_key, rest)
    else if b == escape
    then handle_escape rest
    else if b == delete_byte || b == backspace
    then (some backspace_key, rest)
    else if b == tab
    then (some tab_key, rest)
    else (some (char_key b), rest)

abbrev pub and_then : Option Key → List Key → List Key
and_then none keys = keys
and_then (some key) keys = key ∷ keys

-- The loop, on fuel: it ends where no byte is left, and the number of the bytes is enough.
unfoldable pub read_keys : ℕ → Text → List Key
unfolding read_input
read_keys zero s = []
read_keys (suc fuel) s =
    let (key, rest) = read_input s in let keys = read_keys fuel rest in and_then key keys

-- The call that the key makes.
module _ (str : Stringpy) (find_command_matches : Text → List Text) (console_width : ℕ) where
  unfoldable pub press : Stream → ConsoleInput → Key → Option (ConsoleInput × Output)
  unfolding handle_end
  press io c up_arrow = some (handle_up_arrow c)
  press io c down_arrow = some (handle_down_arrow c)
  press io c right_arrow = some (handle_right_arrow c)
  press io c left_arrow = some (handle_left_arrow c)
  press io c end_key = some (handle_end c)
  press io c home_key = some (handle_home c)
  press io c delete_key = some (handle_delete c)
  press io c newline_key = some (handle_newline str io c)
  press io c backspace_key = some (handle_backspace c)
  press io c tab_key = handle_tab find_command_matches console_width c
  press io c (char_key ch) = some (handle_char str c ch)
