-- ===== src/History.antt =====
-- libs/model/include/model/userinput_history.hpp and libs/model/src/model/userinput_history.cpp:
-- the history of console commands over a circular buffer of 100 texts, with its position.
pub mod Kept
pub mod Emplace
pub mod Inv
pub mod Navigation
pub mod Persist
pub mod Recalled
pub mod Stale
mod Tests
use rehlds_m.Base.{
  ℕ, zero, suc, ◌+◌, ◌-◌, ◌≡◌, Bool, true, false, not, ◌&&◌, ◌||◌, if◌then◌else◌, ltb, Option, none,
  some, List, [], ◌∷◌, Text, text_eq,
}
use rehlds_m.CircularBuffer.{CircularBuffer, fresh, push_back, size, back, elem_at, empty}
use rehlds_m.CircularBuffer
use rehlds_m.Stringpy.{Stringpy}
use rehlds_m.File.{
  Disk, Stream, FileLog, file_exists, try_file_read, try_file_write_lines, try_file_remove,
}

abbrev pub history_capacity : ℕ
history_capacity = 100

pub record UserInputHistory : Type 0 where
  pub history : CircularBuffer Text
  pub position : ℕ
  pub filename : Text

unfoldable pub new_history : Text → UserInputHistory
new_history filename = record {
  history = fresh history_capacity [];
  position = 0;
  filename = filename;
}

-- The text at a place; a value-initialised text stands for a read out of range.
abbrev pub entry : CircularBuffer Text → ℕ → Text
entry b i = elem_at history_capacity b i []

module _ (str : Stringpy) where
  unfoldable pub is_valid_input : Text → Bool
  is_valid_input input = not (str.is_empty_or_space input) && str.is_printable input

  -- `history_.back()` reads the place before `head`, also where the buffer is empty.
  abbrev pub wanted : CircularBuffer Text → Text → Bool
  wanted b input = is_valid_input input && not (text_eq input (back history_capacity b []))

  unfoldable pub emplace : CircularBuffer Text → Text → CircularBuffer Text
  unfolding is_valid_input
  emplace b input = if wanted b input then push_back history_capacity b input else b

  unfoldable pub append : UserInputHistory → Text → UserInputHistory
  unfolding emplace
  append h input =
      let b = emplace h.history input in
      record h { history = b; position = size history_capacity b }

  unfoldable pub emplace_all : CircularBuffer Text → List Text → CircularBuffer Text
  emplace_all b [] = b
  emplace_all b (input ∷ inputs) = emplace_all (emplace b input) inputs

  load_content : UserInputHistory → Text → UserInputHistory
  unfolding emplace_all
  load_content h content =
      let b = emplace_all (CircularBuffer.clear h.history) (str.split_lines content) in
      record h { history = b; position = size history_capacity b }

  unfoldable pub load : Stream → Disk → UserInputHistory → UserInputHistory × List FileLog
  unfolding load_content
  load io disk h =
      let (done, log, content) = try_file_read io disk h.filename [] in
      if not (file_exists disk h.filename)
      then (h, [])
      else if done
      then (load_content h content, log)
      else (h, log)

unfoldable pub next : UserInputHistory → Option Text × UserInputHistory
next h =
    let n = size history_capacity h.history in
    let p = if ltb h.position n then h.position + 1 else h.position in
    (if ltb p n then some (entry h.history p) else none, record h { position = p })

unfoldable pub previous : UserInputHistory → Option Text × UserInputHistory
previous h =
    if ltb 0 h.position
    then (some (entry h.history (h.position - 1)), record h { position = h.position - 1 })
    else (none, h)

unfoldable pub clear : Bool → Disk → UserInputHistory → UserInputHistory × List FileLog × Disk
clear allowed disk h =
    let b = CircularBuffer.clear h.history in
    let h' = record h { history = b; position = size history_capacity b } in
    let (done, log, disk') = try_file_remove allowed disk h.filename in
    if file_exists disk h.filename then (h', log, disk') else (h', [], disk)

-- The loop of `save` that copies the entries, from index `i` on, over the rounds left.
unfoldable pub history_lines : CircularBuffer Text → ℕ → ℕ → List Text
history_lines b i zero = []
history_lines b i (suc rounds) = entry b i ∷ history_lines b (i + 1) rounds

unfoldable pub save : Stream → Disk → UserInputHistory → List FileLog × Disk
unfolding history_lines
save io disk h =
    let lines = history_lines h.history 0 (size history_capacity h.history) in
    let (done, log, disk') = try_file_write_lines io disk h.filename lines false in
    if text_eq h.filename [] || empty h.history then ([], disk) else (log, disk')
