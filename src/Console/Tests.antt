-- ===== src/Console/Tests.antt =====
-- Sessions of the console, and the theorems at concrete editors and screens.
use rehlds_m.Base.{ℕ, ◌+◌, ◌-◌, ◌≤◌, ◌≡◌, refl, true, false, none, some, List, [], ◌∷◌, Text, arith}
use rehlds_m.Console.Windows.{records, read_records, read_records-read_keys}
use rehlds_m.Stringpy.Example.{ascii, all_printable}
use rehlds_m.File.{Disk, Stream}
use rehlds_m.History.{new_history}
use rehlds_m.History.Inv.{new_history-IsConsistent}
use rehlds_m.Presenter.{InputPresenter}
use rehlds_m.Console.{ConsoleInput, Output, handle_left_arrow, handle_char, handle_tab}
use rehlds_m.Console.Terminal.{Screen, at, column, emit, IsPlain}
use rehlds_m.Console.Display.{Shows}
use rehlds_m.Console.Keys.{
  Key, left_arrow, end_key, delete_key, backspace_key, up_arrow, char_key, press, read_keys,
}
use rehlds_m.Console.KeyCodes.{codes, read_keys-codes}
use rehlds_m.Console.Session.{PlainLaws}
use rehlds_m.Console.Shown.{Session, opened, pressed, start, Session-Shows}
use rehlds_m.Console.TabDefect.{handle_tab_lag}

IsPlain-printable : (s : Text) → all_printable s ≡ true → IsPlain s
IsPlain-printable [] h = tt
IsPlain-printable (c ∷ s) h = (ground arith, IsPlain-printable s (ground arith))

ascii_plain : PlainLaws ascii
ascii_plain = record { plain_char = λ ch h. ground arith; plain_text = IsPlain-printable }

abbrev file : Text
file = b'f' ∷ []

abbrev blank : Disk
blank path = none

abbrev broken : Stream
broken = record {
  opens = false;
  translates = false;
  told = none;
  delivered = 0;
  bad = false;
  closes = true;
}

abbrev presenter : InputPresenter
presenter = record { input_queue = []; input_history = new_history file; disk = blank }

abbrev map_text : Text
map_text = b'm' ∷ b'a' ∷ b'p' ∷ []

abbrev maps_text : Text
maps_text = b'm' ∷ b'a' ∷ b'p' ∷ b's' ∷ []

-- One command is known.
abbrev only_map : Text → List Text
only_map s = map_text ∷ []

abbrev blank_screen : Screen
blank_screen = at [] [] []

abbrev typed_b : ConsoleInput
typed_b = record (start presenter) { input_line = b'b' ∷ []; cursor_position = 1 }

abbrev before_b : ConsoleInput
before_b = record (start presenter) { input_line = b'b' ∷ [] }

abbrev typed_a : ConsoleInput
typed_a = record (start presenter) { input_line = b'a' ∷ b'b' ∷ []; cursor_position = 1 }

-- A byte, a step to the left, and another byte before it.
short-Session :
    Session ascii ascii_plain only_map 80 blank_screen
      (start presenter)
      (emit (emit (emit blank_screen (b'b' ∷ [])) (8 ∷ [])) (b'a' ∷ b'b' ∷ 8 ∷ []))
      typed_a
unfolding press handle_char handle_left_arrow
short-Session =
    pressed broken (char_key b'a') (typed_a, b'a' ∷ b'b' ∷ 8 ∷ [])
      (pressed broken left_arrow (before_b, 8 ∷ [])
        (pressed broken (char_key b'b') (typed_b, b'b' ∷ []) opened tt refl) tt refl)
      tt refl

Session-Shows_example :
    (1 ≤ 2)
    × Shows (emit (emit (emit blank_screen (b'b' ∷ [])) (8 ∷ [])) (b'a' ∷ b'b' ∷ 8 ∷ [])) typed_a
Session-Shows_example =
    Session-Shows ascii ascii_plain only_map 80 presenter []
      (emit (emit (emit blank_screen (b'b' ∷ [])) (8 ∷ [])) (b'a' ∷ b'b' ∷ 8 ∷ [])) typed_a
      (λ line. ((refl, (refl, (refl, tt))), tt)) (new_history-IsConsistent ascii file) short-Session

abbrev some_keys : List Key
some_keys = up_arrow ∷ char_key b'x' ∷ delete_key ∷ backspace_key ∷ end_key ∷ []

read_keys-codes_example : read_keys 12 (codes some_keys) ≡ some_keys
read_keys-codes_example =
    read_keys-codes some_keys 12 (tt, (refl, (tt, (tt, (tt, tt))))) (omega arith)

-- The Windows keyboard, roughly: all letters share the code 231.
abbrev letter_code : ℕ → ℕ
letter_code ch = 231

read_records-read_keys_example :
    read_records (records letter_code some_keys) ≡ read_keys 12 (codes some_keys)
read_records-read_keys_example =
    read_records-read_keys letter_code some_keys 12 (λ ch. refl) (tt, (refl, (tt, (tt, (tt, tt)))))
      (tt, (refl, (tt, (tt, (tt, tt))))) (omega arith)

-- "m" in front of "a", with the cursor between them.
abbrev at_m : ConsoleInput
at_m = record (start presenter) { input_line = b'm' ∷ b'a' ∷ []; cursor_position = 1 }

handle_tab_lag_example :
    (r : ConsoleInput × Output) × (handle_tab only_map 80 at_m ≡ some r)
    × (column (emit (at [] (b'm' ∷ []) (b'a' ∷ [])) r.1) + (2 - 1) ≡ r.0.cursor_position)
handle_tab_lag_example =
    handle_tab_lag only_map 80 (at [] (b'm' ∷ []) (b'a' ∷ [])) at_m map_text
      (record { inside = omega arith; plain = (refl, (refl, tt)) }) ([], 0, refl) refl
      (refl, (refl, (refl, tt))) (omega arith)

abbrev drafting : ConsoleInput
drafting = record at_m { saved_input = some (b'd' ∷ []) }
