-- ===== src/History/Stale.antt =====
-- `CircularBuffer::clear` resets the indices and keeps the array, and `back` reads the array also
-- where the buffer is empty. So the duplicate test of `UserInputHistory::append` compares the first
-- input after a `clear` with the newest entry before it.
use rehlds_m.Base.{
  ◌≡◌, refl, sym, ap, ◌∙◌, inl, inr, Bool, true, not, ◌&&◌, if◌then◌else◌, [], ◌∷◌, arith, Text,
  text_eq, text_eq_iff, length, last_or,
}
use rehlds_m.Stringpy.{Stringpy}
use rehlds_m.File.{Disk}
use rehlds_m.CircularBuffer.{CircularBuffer, size, back, empty}
use rehlds_m.CircularBuffer
use rehlds_m.CircularBuffer.Deque
use rehlds_m.CircularBuffer.Inv.{clear-IsValid}
use rehlds_m.CircularBuffer.Refine.{length-contents, size_cases}
use rehlds_m.CircularBuffer.Reads.{back-contents}
use rehlds_m.CircularBuffer.Runs.{contents-clear}
use rehlds_m.History.{
  history_capacity, UserInputHistory, append, clear, emplace, wanted, is_valid_input,
}
use rehlds_m.History.Emplace.{Buffer, fits, entries, IsSound, entries-emplace}
use rehlds_m.History.Inv.{IsConsistent}

-- The text before the place of the oldest entry, which `back` reads of a cleared buffer.
pub stale : Buffer → Text
stale b = back history_capacity (CircularBuffer.clear b) []

clear_history :
    (allowed : Bool) (disk : Disk) (h : UserInputHistory)
    → (clear allowed disk h).0.history ≡ CircularBuffer.clear h.history
unfolding clear
clear_history allowed disk h = ground arith

stale-full : (b : Buffer) → b.head ≡ b.tail → stale b ≡ back history_capacity b []
unfolding stale CircularBuffer.clear back
stale-full b e = ground arith

module _ (str : Stringpy) where
  append_history :
      (h : UserInputHistory) (input : Text)
      → (append str h input).history ≡ emplace str h.history input
  unfolding append
  append_history h input = refl

  -- On an empty buffer.
  emplace_empty :
      (b : Buffer) (x : Text)
      → IsSound b
      → entries b ≡ []
      → entries (emplace str b x) ≡ (
          if is_valid_input str x && not (text_eq x (back history_capacity b []))
          then x ∷ []
          else [])
  emplace_empty b x v e =
      entries-emplace str x v
      ∙ ap (λ q. if wanted str b x then Deque.push_back history_capacity q x else q) e
      ∙ ap (λ q. if wanted str b x then q else [])
          (Deque.push_back_room history_capacity [] x (omega arith))

  -- After a `clear`, a valid input is stored exactly when it differs from the text that the array
  -- still holds before the place of the oldest entry.
  pub append-clear :
      (h : UserInputHistory) (allowed : Bool) (disk : Disk) (input : Text)
      → IsConsistent str h
      → is_valid_input str input ≡ true
      → entries (append str (clear allowed disk h).0 input).history
        ≡ (if text_eq input (stale h.history) then [] else input ∷ [])
  unfolding stale
  append-clear h allowed disk input c valid =
      ap entries (
        append_history (clear allowed disk h).0 input
        ∙ ap (λ b. emplace str b input) (clear_history allowed disk h))
      ∙ emplace_empty (CircularBuffer.clear h.history) input
          (clear-IsValid history_capacity fits c.sound)
          (contents-clear history_capacity fits [] c.sound)
      ∙ ground (arith, valid)

  -- Where the history was full, that text is its newest entry: entering it again after a `clear`
  -- stores nothing, although the history is empty.
  pub append-clear_full :
      (h : UserInputHistory) (allowed : Bool) (disk : Disk)
      → IsConsistent str h
      → length (entries h.history) ≡ history_capacity
      → is_valid_input str (last_or (entries h.history) []) ≡ true
      → entries (append str (clear allowed disk h).0 (last_or (entries h.history) [])).history ≡ []
  append-clear_full h allowed disk c full valid =
      append-clear h allowed disk (last_or (entries h.history) []) c valid
      ∙ ap (λ t. if t then [] else last_or (entries h.history) [] ∷ []) same
    where
      meet : h.history.head ≡ h.history.tail
      meet = elim (size_cases history_capacity fits c.sound) [
        | inl p ↦ p.1
        | inr p ↦ absurd (omega (arith, p.1, length-contents history_capacity [] h.history))
      ]

      newest : last_or (entries h.history) [] ≡ stale h.history
      newest = sym (
          stale-full h.history meet
          ∙ back-contents history_capacity fits [] c.sound
              (omega (arith, length-contents history_capacity [] h.history)))

      same : text_eq (last_or (entries h.history) []) (stale h.history) ≡ true
      same = (text_eq_iff _ _).1 newest
