-- ===== src/History/Inv.antt =====
-- The invariant of the input history, over every sequence of its calls.
use rehlds_m.Base.{
  ◌≤◌, ◌≡◌, refl, sym, subst, inl, inr, Bool, Bool-cases, ltb, List, [], ◌∷◌, arith, Text,
}
use rehlds_m.Stringpy.{Stringpy}
use rehlds_m.File.{Disk, Stream, file_exists, try_file_read}
use rehlds_m.CircularBuffer.{CircularBuffer, fresh, size}
use rehlds_m.CircularBuffer
use rehlds_m.CircularBuffer.Inv.{fresh-IsValid, clear-IsValid}
use rehlds_m.CircularBuffer.Runs.{contents-clear}
use rehlds_m.History.{
  history_capacity, UserInputHistory, new_history, append, next, previous, clear, load, save,
  emplace_all,
}
use rehlds_m.History.Kept.{IsKept}
use rehlds_m.History.Emplace.{
  fits, entries, IsSound, emplace-IsValid, emplace-IsKept, emplace_all-IsValid, emplace_all-IsKept,
}

module _ (str : Stringpy) where
  -- The buffer is valid, the position is at most its size, and its entries are valid inputs of
  -- which no two neighbours are equal.
  pub record IsConsistent (h : UserInputHistory) : Type 0 where
    pub sound : IsSound h.history
    pub bounded : h.position ≤ size history_capacity h.history
    pub kept : IsKept str (entries h.history)

  entries-fresh : entries (fresh history_capacity []) ≡ []
  unfolding fresh size
  entries-fresh = refl

  pub new_history-IsConsistent : (filename : Text) → IsConsistent (new_history filename)
  unfolding new_history
  new_history-IsConsistent filename = record {
    sound = fresh-IsValid history_capacity fits [];
    bounded = omega arith;
    kept = subst (IsKept str) (sym entries-fresh) tt;
  }

  pub append-IsConsistent :
      {h : UserInputHistory} (input : Text) → IsConsistent h → IsConsistent (append str h input)
  unfolding append
  append-IsConsistent input c = record {
    sound = emplace-IsValid str input c.sound;
    bounded = omega arith;
    kept = emplace-IsKept str input c.sound c.kept;
  }

  pub next-IsConsistent : {h : UserInputHistory} → IsConsistent h → IsConsistent (next h).1
  unfolding next
  next-IsConsistent {h} c = record { sound = c.sound; bounded = ground arith; kept = c.kept }

  pub previous-IsConsistent : {h : UserInputHistory} → IsConsistent h → IsConsistent (previous h).1
  unfolding previous
  previous-IsConsistent {h} c = elim (Bool-cases (ltb 0 h.position)) [
    | inl p ↦ rw (p, previous) (record { sound = c.sound; bounded = omega arith; kept = c.kept })
    | inr p ↦ rw (p, previous) c
  ]

  cleared-IsKept :
      {b : CircularBuffer Text} → IsSound b → IsKept str (entries (CircularBuffer.clear b))
  cleared-IsKept v = subst (IsKept str) (sym (contents-clear history_capacity fits [] v)) tt

  -- A history at the end of a buffer that it may hold.
  at_end :
      (h : UserInputHistory) (b : CircularBuffer Text)
      → IsSound b
      → IsKept str (entries b)
      → IsConsistent (record h { history = b; position = size history_capacity b })
  at_end h b v k = record { sound = v; bounded = omega arith; kept = k }

  pub clear-IsConsistent :
      {h : UserInputHistory} (allowed : Bool) (disk : Disk)
      → IsConsistent h
      → IsConsistent (clear allowed disk h).0
  unfolding clear
  clear-IsConsistent {h} allowed disk c = elim (Bool-cases (file_exists disk h.filename)) [
    | inl e ↦ rw (e, clear) emptied
    | inr e ↦ rw (e, clear) emptied
  ]
    where
      b : CircularBuffer Text
      b = CircularBuffer.clear h.history

      emptied : IsConsistent (record h { history = b; position = size history_capacity b })
      emptied = at_end h b (clear-IsValid history_capacity fits c.sound) (cleared-IsKept c.sound)

  pub load-IsConsistent :
      {h : UserInputHistory} (io : Stream) (disk : Disk)
      → IsConsistent h
      → IsConsistent (load str io disk h).0
  unfolding load
  load-IsConsistent {h} io disk c = elim (Bool-cases (file_exists disk h.filename)) [
    | inr e ↦ rw (e, load) c
    | inl e ↦ elim (Bool-cases (try_file_read io disk h.filename []).0) [
      | inr f ↦ rw (e, f, load) c
      | inl f ↦ rw (e, f, load) filled
    ]
  ]
    where
      lines : List Text
      lines = str.split_lines (try_file_read io disk h.filename []).2

      cleared : CircularBuffer Text
      cleared = CircularBuffer.clear h.history

      sound : IsSound cleared
      sound = clear-IsValid history_capacity fits c.sound

      filled : IsConsistent (record h {
        history = emplace_all str cleared lines;
        position = size history_capacity (emplace_all str cleared lines);
      })
      filled =
          at_end h (emplace_all str cleared lines) (emplace_all-IsValid str lines sound)
            (emplace_all-IsKept str lines sound (cleared-IsKept c.sound))

  -- A call of the history, with what the system does for it.
  pub data Call : Type 0 where
    appends : Text → Call
    nexts previouses : Call
    clears : Bool → Call
    loads saves : Stream → Call

  unfoldable pub step : UserInputHistory × Disk → Call → UserInputHistory × Disk
  step (h, disk) (appends input) = (append str h input, disk)
  step (h, disk) nexts = ((next h).1, disk)
  step (h, disk) previouses = ((previous h).1, disk)
  step (h, disk) (clears allowed) = let (h', log, disk') = clear allowed disk h in (h', disk')
  step (h, disk) (loads io) = ((load str io disk h).0, disk)
  step (h, disk) (saves io) = (h, (save io disk h).1)

  unfoldable pub run : UserInputHistory × Disk → List Call → UserInputHistory × Disk
  run s [] = s
  run s (call ∷ calls) = run (step s call) calls

  pub step-IsConsistent :
      (s : UserInputHistory × Disk) (call : Call) → IsConsistent s.0 → IsConsistent (step s call).0
  unfolding step
  step-IsConsistent (h, disk) (appends input) c = append-IsConsistent input c
  step-IsConsistent (h, disk) nexts c = next-IsConsistent c
  step-IsConsistent (h, disk) previouses c = previous-IsConsistent c
  step-IsConsistent (h, disk) (clears allowed) c = clear-IsConsistent allowed disk c
  step-IsConsistent (h, disk) (loads io) c = load-IsConsistent io disk c
  step-IsConsistent (h, disk) (saves io) c = c

  run-IsConsistent_from :
      (calls : List Call) (s : UserInputHistory × Disk)
      → IsConsistent s.0
      → IsConsistent (run s calls).0
  unfolding run
  run-IsConsistent_from [] s c = c
  run-IsConsistent_from (call ∷ calls) s c =
      run-IsConsistent_from calls (step s call) (step-IsConsistent s call c)

  -- After any sequence of calls on a new history, with any results of the file system, the buffer
  -- is valid, the position is at most its size, and its entries are valid inputs of which no two
  -- neighbours are equal.
  pub run-IsConsistent :
      (filename : Text) (disk : Disk) (calls : List Call)
      → IsConsistent (run (new_history filename, disk) calls).0
  run-IsConsistent filename disk calls =
      run-IsConsistent_from calls (new_history filename, disk) (new_history-IsConsistent filename)
