-- ===== src/History/Tests.antt =====
-- Sessions of the input history, and the theorems at concrete histories.
use mathlib.Core.List.{reverse}
use rehlds_m.Base.{
  ℕ, zero, suc, ◌≡◌, refl, true, false, none, some, List, [], ◌∷◌, ◌++◌, map, length, last_or, Text,
  arith,
}
use rehlds_m.Stringpy.Example.{ascii, ascii_lines}
use rehlds_m.File.{Disk, Stream, max_file_size, try_file_write_lines}
use rehlds_m.CircularBuffer.{fresh, size, push_back, back, empty}
use rehlds_m.History.{
  history_capacity, UserInputHistory, new_history, append, clear, load, save, emplace,
}
use rehlds_m.History.Emplace.{entries}
use rehlds_m.History.Inv.{
  IsConsistent, Call, appends, nexts, previouses, clears, loads, saves, step, run, run-IsConsistent,
  append-IsConsistent, new_history-IsConsistent,
}
use rehlds_m.History.Navigation.{walk_back, walk_back-append}
use rehlds_m.History.Persist.{load-save}
use rehlds_m.History.Stale.{append-clear_full}

abbrev a : Text
a = b'a' ∷ []

abbrev b : Text
b = b'b' ∷ []

abbrev file : Text
file = b'f' ∷ []

abbrev blank : Disk
blank path = none

abbrev working : ℕ → Stream
working size = record {
  opens = true;
  translates = false;
  told = some size;
  delivered = 1000;
  bad = false;
  closes = true;
}

abbrev two : UserInputHistory
two = append ascii (append ascii (new_history file) a) b

two-IsConsistent : IsConsistent ascii two
two-IsConsistent =
    append-IsConsistent ascii b (append-IsConsistent ascii a (new_history-IsConsistent ascii file))

two-entries : entries (append ascii two b).history ≡ a ∷ b ∷ []
unfolding append new_history fresh emplace push_back back size
two-entries = refl

run-IsConsistent_example :
    IsConsistent ascii
      (run ascii
        (new_history file, blank)
        (appends a
          ∷ saves (working 0)
          ∷ previouses
          ∷ clears true
          ∷ loads (working 2)
          ∷ nexts
          ∷ [])).0
run-IsConsistent_example =
    run-IsConsistent ascii file blank
      (appends a ∷ saves (working 0) ∷ previouses ∷ clears true ∷ loads (working 2) ∷ nexts ∷ [])

walk_back-append_example :
    walk_back (suc (size history_capacity (append ascii two a).history)) (append ascii two a)
    ≡ map some (reverse (entries (append ascii two a).history)) ++ (none ∷ [])
walk_back-append_example = walk_back-append ascii two a two-IsConsistent

load-save_example :
    (entries
        (load ascii (working 4) (save (working 0) blank two).1 (new_history two.filename)).0.history
      ≡ entries two.history)
    × ((load ascii (working 4) (save (working 0) blank two).1 (new_history two.filename)).0.position
        ≡ length (entries two.history))
    × ((load ascii (working 4) (save (working 0) blank two).1 (new_history two.filename)).1 ≡ [])
unfolding append new_history fresh emplace push_back back size save empty try_file_write_lines
    max_file_size
load-save_example =
    load-save ascii ascii_lines two (working 0) (working 4) blank two-IsConsistent (λ e. cc)
      (λ e. cc) refl (omega arith)
      (record { opens = refl; told = refl; delivers = omega arith; good = refl; closes = refl })

-- Two inputs in turn, 50 times.
abbrev turns : ℕ → List (Call ascii)
turns zero = []
turns (suc n) = appends a ∷ appends b ∷ turns n

abbrev hundred : UserInputHistory
hundred = (run ascii (new_history file, blank) (turns 50)).0

append-clear_full_example :
    entries
      (append ascii (clear true blank hundred).0 (last_or (entries hundred.history) [])).history
    ≡ []
unfolding run step append new_history fresh emplace push_back back size
append-clear_full_example =
    append-clear_full ascii hundred true blank (run-IsConsistent ascii file blank (turns 50)) refl
      refl
