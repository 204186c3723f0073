-- ===== src/History/Persist.antt =====
-- Saving a history and loading it in a later session.
use rehlds_m.Base.{
  ℕ, zero, suc, ◌+◌, ◌%◌, ◌≤◌, ◌≡◌, refl, sym, ap, ap₂, ◌∙◌, subst, inl, inr, ◌≢◌, true, false, not,
  ◌&&◌, Bool-cases, some, List, [], ◌∷◌, ◌++◌, arith, Text, text_eq, length, get_or,
}
use rehlds_m.Stringpy.{Stringpy, LineLaws, join_lines}
use rehlds_m.File.{Disk, Stream, text_bytes, file_exists, try_file_read, max_file_size}
use rehlds_m.File.Laws.{
  Works, file_read-Works, file_exists-some, try_file_read-Works, text_bytes-join_lines,
  try_file_write_lines-quiet,
}
use rehlds_m.CircularBuffer.{CircularBuffer, size, elem_at, back, fresh, empty}
use rehlds_m.CircularBuffer
use rehlds_m.CircularBuffer.Inv.{fresh-IsValid, size-le, clear-IsValid}
use rehlds_m.CircularBuffer.Window.{window}
use rehlds_m.CircularBuffer.Refine.{length-contents}
use rehlds_m.CircularBuffer.Reads.{counts_contents}
use rehlds_m.CircularBuffer.Runs.{contents-clear}
use rehlds_m.History.{
  history_capacity, UserInputHistory, new_history, save, load, load_content, history_lines, emplace,
  emplace_all, wanted, is_valid_input,
}
use rehlds_m.History.Kept.{
  IsKept, IsKept-head, AreLines-IsKept, ArePrintable-IsKept, valid_not_empty,
}
use rehlds_m.History.Emplace.{
  Buffer, fits, entries, IsSound, length-entries, emplace-IsValid, entries-emplace_next,
  entries-emplace_all,
}
use rehlds_m.History.Inv.{IsConsistent}

-- The loop of `save` copies the entries.
history_lines-window :
    (b : Buffer) (i rounds : ℕ)
    → IsSound b
    → i + rounds ≤ history_capacity
    → history_lines b i rounds ≡ window history_capacity [] b.buffer (b.tail + i) rounds
unfolding history_lines elem_at
history_lines-window b i zero v h = refl
history_lines-window b i (suc rounds) v h =
    ap₂ ◌∷◌ (ap (λ k. get_or b.buffer (k % history_capacity) []) (omega arith)) (
      history_lines-window b (i + 1) rounds v (omega arith)
      ∙ ap (λ k. window history_capacity [] b.buffer k rounds) (omega arith))

history_lines-entries :
    {b : Buffer} → IsSound b → history_lines b 0 (size history_capacity b) ≡ entries b
history_lines-entries {b} v =
    history_lines-window b 0 (size history_capacity b) v
      (omega (arith, size-le history_capacity fits v))
    ∙ ap (λ k. window history_capacity [] b.buffer k (size history_capacity b)) (omega arith)

back-fresh :
    back {A = Text} history_capacity (CircularBuffer.clear (fresh history_capacity [])) [] ≡ []
unfolding fresh CircularBuffer.clear back
back-fresh = refl

-- A history that holds entries and has a file name is written whole, if nothing is logged.
save_stores :
    (h : UserInputHistory) (w : Stream) (disk : Disk)
    → IsSound h.history
    → text_eq h.filename [] ≡ false
    → empty h.history ≡ false
    → (save w disk h).0 ≡ []
    → (save w disk h).1 h.filename ≡ some (text_bytes w.translates (join_lines (entries h.history)))
unfolding save
save_stores h w disk v named full quiet =
    rw (named, full, save)
      (try_file_write_lines-quiet w disk h.filename lines (rw (named, full, save) at quiet)
        ∙ ap (λ l. some (text_bytes w.translates (join_lines l))) (history_lines-entries v))
  where
    lines : List Text
    lines = history_lines h.history 0 (size history_capacity h.history)

load_stored :
    (str : Stringpy) (r : Stream) (disk : Disk) (h : UserInputHistory) (bytes : Text)
    → file_exists disk h.filename ≡ true
    → try_file_read r disk h.filename [] ≡ (true, [], bytes)
    → load str r disk h ≡ (load_content str h bytes, [])
unfolding load
load_stored str r disk h bytes e f = rw (e, f)

load_content_position :
    (str : Stringpy) (h : UserInputHistory) (content : Text)
    → (load_content str h content).position ≡ length (entries (load_content str h content).history)
unfolding load_content
load_content_position str h content = sym (length-contents history_capacity [] _)

text_eq-false : (s : Text) → s ≢ [] → text_eq s [] ≡ false
text_eq-false [] ne = absurd (ne refl)
text_eq-false (c ∷ s) ne = refl

empty-false : {b : Buffer} → IsSound b → entries b ≢ [] → empty b ≡ false
empty-false {b} v ne = elim (Bool-cases (empty b)) [
  | inl e ↦ absurd (ne ((counts_contents history_capacity fits [] v).1.0 e))
  | inr e ↦ e
]

module _ (str : Stringpy) (laws : LineLaws str) where
  -- A new array holds empty texts only, so the first line differs from what it compares with.
  entries-emplace_all_new :
      (q : List Text)
      → IsKept str q
      → length q ≤ history_capacity
      → (b : Buffer) → IsSound b
      → entries b ≡ []
      → back history_capacity b [] ≡ []
      → entries (emplace_all str b q) ≡ q
  unfolding emplace_all
  entries-emplace_all_new [] k small b v e s = e
  entries-emplace_all_new (x ∷ q) k small b v e s =
      entries-emplace_all str q (emplace-IsValid str x v)
        (subst (IsKept str) (sym (ap (λ r. r ++ q) first)) k) (omega (arith, ap length first))
        (omega (arith, ap length first))
      ∙ ap (λ r. r ++ q) first
    where
      valid : is_valid_input str x ≡ true
      valid = IsKept-head str x q k

      new : wanted str b x ≡ true
      new =
          ap (λ y. is_valid_input str x && not (text_eq x y)) s
          ∙ ground (arith, valid, valid_not_empty str laws x valid)

      first : entries (emplace str b x) ≡ x ∷ []
      first =
          entries-emplace_next str x v new (omega (arith, ap length e)) ∙ ap (λ r. r ++ (x ∷ [])) e

  load_content-new :
      (filename content : Text) (q : List Text)
      → IsKept str q
      → length q ≤ history_capacity
      → str.split_lines content ≡ q
      → entries (load_content str (new_history filename) content).history ≡ q
  unfolding load_content new_history
  load_content-new filename content q k small e =
      ap (λ l. entries (emplace_all str cleared l)) e
      ∙ entries-emplace_all_new q k small cleared
          (clear-IsValid history_capacity fits (fresh-IsValid history_capacity fits []))
          empty_entries back-fresh
    where
      cleared : Buffer
      cleared = CircularBuffer.clear (fresh history_capacity [])

      empty_entries : entries cleared ≡ []
      empty_entries =
          contents-clear history_capacity fits [] (fresh-IsValid history_capacity fits [])

  -- What is saved of a history that holds entries and has a file name, with nothing logged, is what
  -- a new history of that name loads in a later session, on Linux or Windows, if the file is at most
  -- 100 MB and the stream works: the same entries in the same order, with the position behind them.
  pub load-save :
      (h : UserInputHistory) (w r : Stream) (disk : Disk)
      → IsConsistent str h
      → h.filename ≢ []
      → entries h.history ≢ []
      → (save w disk h).0 ≡ []
      → length (text_bytes w.translates (join_lines (entries h.history))) ≤ max_file_size
      → Works r (length (text_bytes w.translates (join_lines (entries h.history))))
      → let (h', log) = load str r (save w disk h).1 (new_history h.filename) in
        (entries h'.history ≡ entries h.history)
        × (h'.position ≡ length (entries h.history))
        × (log ≡ [])
  unfolding new_history
  load-save h w r disk c named some_entries quiet small works =
      rw loaded
        (restored, load_content_position str (new_history h.filename) _ ∙ ap length restored, refl)
    where
      disk' : Disk
      disk' = (save w disk h).1

      written : Text
      written = text_bytes w.translates (join_lines (entries h.history))

      stored : disk' h.filename ≡ some written
      stored =
          save_stores h w disk c.sound (text_eq-false h.filename named)
            (empty-false c.sound some_entries) quiet

      loaded :
          load str r disk' (new_history h.filename)
          ≡ (load_content str (new_history h.filename) written, [])
      loaded =
          load_stored str r disk' (new_history h.filename) written
            (file_exists-some disk' h.filename _ named stored)
            (try_file_read-Works r disk' h.filename [] _
              (file_read-Works r disk' h.filename [] _ named stored small works))

      restored :
          entries (load_content str (new_history h.filename) written).history ≡ entries h.history
      restored =
          load_content-new h.filename written (entries h.history) c.kept (length-entries c.sound) (
            ap str.split_lines (
              text_bytes-join_lines w.translates (entries h.history)
                (AreLines-IsKept str laws (entries h.history) c.kept))
            ∙ laws.split_join w.translates (entries h.history)
                (ArePrintable-IsKept str (entries h.history) c.kept))
