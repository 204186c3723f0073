-- ===== src/Hlds/Tests.antt =====
-- Two lines typed while the loop runs its frames.
use rehlds_m.Base.{◌≡◌, refl, true, false, some, none, List, [], ◌∷◌, Text, arith}
use rehlds_m.Stringpy.{newline}
use rehlds_m.Stringpy.Example.{ascii}
use rehlds_m.File.{Disk, Stream}
use rehlds_m.Console.Keys.{char_key, newline_key, read_keys}
use rehlds_m.ServerLoop.Delivery.{IsReady, all_inputs}
use rehlds_m.Hlds.{Hlds, Act, presses, ends, loops, construct, act_each}
use rehlds_m.Hlds.Entered.{entered-all_inputs}

abbrev no_files : Disk
no_files path = none

abbrev refuses : Stream
refuses = record {
  opens = false;
  translates = false;
  told = none;
  delivered = 0;
  bad = false;
  closes = true;
}

abbrev no_commands : Text → List Text
no_commands s = []

abbrev two_lines : List Text
two_lines = (b'm' ∷ b'a' ∷ []) ∷ (b'b' ∷ []) ∷ []

abbrev typed_acts : List Act
typed_acts =
    loops true
    ∷ presses (char_key b'm')
    ∷ presses (char_key b'a')
    ∷ loops true
    ∷ presses newline_key
    ∷ ends
    ∷ loops true
    ∷ loops true
    ∷ presses (char_key b'b')
    ∷ presses newline_key
    ∷ []

abbrev game_arguments : Text
game_arguments = b'-' ∷ b'g' ∷ b'a' ∷ b'm' ∷ b'e' ∷ []

entered-all_inputs_example :
    (h : Hlds) × (act_each ascii no_commands 80 refuses typed_acts
        (construct ascii refuses no_files game_arguments)
      ≡ some h)
    × IsReady h.loop
    × (all_inputs h.loop ≡ (b'm' ∷ b'a' ∷ newline ∷ []) ∷ (b'b' ∷ newline ∷ []) ∷ [])
unfolding read_keys
entered-all_inputs_example =
    entered-all_inputs ascii no_commands 80 refuses no_files game_arguments two_lines 5 typed_acts
      ((refl, refl, (refl, refl, tt)), ((refl, refl, tt), tt)) (omega arith) refl
