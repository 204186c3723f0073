-- ===== src/ThreadSafeQueue/Steps.antt =====
-- What holds of every interleaving of the calls of all threads.
use rehlds_m.Base.{
  ℕ, ◌≡◌, refl, sym, ap, ◌∙◌, inl, inr, Bool-cases, Bool, true, false, List, [], ◌∷◌, ◌++◌,
  append-nil, append_assoc, arith,
}
use rehlds_m.ThreadSafeQueue.{
  copy, move, ThreadSafeQueue, push, clear, take_front, pop, wake, elem, without, Call, pushes,
  clears, pops, wakes, to_list, step, run,
}

module _ {ℓ} {A : Type ℓ} where
  abbrev pub pushed : List (Call A) → List A
  pushed [] = []
  pushed (pushes item ∷ calls) = item ∷ pushed calls
  pushed (clears ∷ calls) = pushed calls
  pushed (pops thread ∷ calls) = pushed calls
  pushed (wakes thread ∷ calls) = pushed calls

  pop_keeps :
      (items : List A) (sleepers : List ℕ) (thread : ℕ)
      → let q : ThreadSafeQueue A = record { queue = items; sleepers = sleepers } in
        to_list (pop q thread).0 ++ (pop q thread).1.queue ≡ items
  unfolding pop take_front
  pop_keeps [] sleepers thread = refl
  pop_keeps (item ∷ items) sleepers thread = refl

  wake_keeps :
      (q : ThreadSafeQueue A) (thread : ℕ)
      → to_list (wake q thread).0 ++ (wake q thread).1.queue ≡ q.queue
  unfolding wake
  wake_keeps q thread = elim (Bool-cases (elem thread q.sleepers)) [
    | inl e ↦ rw (e, wake) (pop_keeps q.queue (without q.sleepers thread) thread)
    | inr e ↦ rw (e, wake) refl
  ]

  -- What one call put in, for the steps' equation.
  abbrev added : Call A → List A
  added (pushes item) = item ∷ []
  added clears = []
  added (pops thread) = []
  added (wakes thread) = []

  step_keeps :
      (q : ThreadSafeQueue A) (call : Call A)
      → (step q call).0 ++ (step q call).1.queue ≡ q.queue ++ added call
  unfolding step push clear
  step_keeps q (pushes item) = refl
  step_keeps q clears = refl
  step_keeps q (pops thread) = pop_keeps q.queue q.sleepers thread ∙ sym (append-nil q.queue)
  step_keeps q (wakes thread) = wake_keeps q thread ∙ sym (append-nil q.queue)

  pushed-added :
      (call : Call A) (calls : List (Call A)) → added call ++ pushed calls ≡ pushed (call ∷ calls)
  pushed-added (pushes item) calls = refl
  pushed-added clears calls = refl
  pushed-added (pops thread) calls = refl
  pushed-added (wakes thread) calls = refl

  -- In every interleaving of the calls, what left the queue by a pop or a clear, in its order, and
  -- then what is left in it, is what it held at first and then what was pushed, in the order of the
  -- pushes: nothing is lost, doubled or overtaken, whoever sleeps and is woken.
  pub run-pushed :
      (q : ThreadSafeQueue A) (calls : List (Call A))
      → (run q calls).0 ++ (run q calls).1.queue ≡ q.queue ++ pushed calls
  unfolding run
  run-pushed q [] = sym (append-nil q.queue)
  run-pushed q (call ∷ calls) =
      let (out, q') = step q call in
      append_assoc out (run q' calls).0 (run q' calls).1.queue
      ∙ ap (λ s. out ++ s) (run-pushed q' calls)
      ∙ sym (append_assoc out q'.queue (pushed calls))
      ∙ ap (λ s. s ++ pushed calls) (step_keeps q call)
      ∙ append_assoc q.queue (added call) (pushed calls)
      ∙ ap (λ s. q.queue ++ s) (pushed-added call calls)

  -- No spurious wake-up.
  abbrev pub is_quiet : List (Call A) → Bool
  is_quiet [] = true
  is_quiet (pushes item ∷ calls) = is_quiet calls
  is_quiet (clears ∷ calls) = is_quiet calls
  is_quiet (pops thread ∷ calls) = is_quiet calls
  is_quiet (wakes thread ∷ calls) = false

  pop_sleeps :
      (items : List A) (sleepers : List ℕ) (thread other : ℕ)
      → elem thread sleepers ≡ true
      → elem thread (pop {A = A} (record { queue = items; sleepers = sleepers }) other).1.sleepers
        ≡ true
  unfolding pop take_front
  pop_sleeps [] sleepers thread other h = ground arith
  pop_sleeps (item ∷ items) sleepers thread other h = h

  -- A thread that sleeps in `pop` goes on sleeping through every sequence of calls of the others
  -- without a spurious wake-up, also where elements are pushed.
  pub run-pop :
      (q : ThreadSafeQueue A) (thread : ℕ) (calls : List (Call A))
      → is_quiet calls ≡ true
      → elem thread q.sleepers ≡ true
      → elem thread (run q calls).1.sleepers ≡ true
  unfolding run step push clear
  run-pop q thread [] quiet h = h
  run-pop q thread (pushes item ∷ calls) quiet h = run-pop (push q item) thread calls quiet h
  run-pop q thread (clears ∷ calls) quiet h = run-pop (clear q) thread calls quiet h
  run-pop q thread (pops other ∷ calls) quiet h =
      run-pop (pop q other).1 thread calls quiet (pop_sleeps q.queue q.sleepers thread other h)
  run-pop q thread (wakes other ∷ calls) quiet h = absurd (ground arith)

  -- A copy, or what a queue is moved to, answers every sequence of calls as the queue would that
  -- was copied, if no thread sleeps in that.
  run-copy :
      (q : ThreadSafeQueue A) (calls : List (Call A))
      → q.sleepers ≡ []
      → (run (copy q) calls ≡ run q calls) × (run (move q).0 calls ≡ run q calls)
  unfolding copy move
  run-copy q calls e =
      let same = ap (λ s. run (record q { sleepers = s }) calls) (sym e) in (same, same)
