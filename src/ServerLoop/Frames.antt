-- ===== src/ServerLoop/Frames.antt =====
-- Whole frames of the loop: how long what is queued waits.
use rehlds_m.Base.{
  length-drop, ℕ, zero, suc, ◌+◌, ◌*◌, ◌≤◌, ◌≡◌, refl, sym, ap, ap₂, ◌∙◌, Bool, true, false, List,
  [], ◌∷◌, ◌++◌, append-nil, append_assoc, length, replicate, drop, take, Text, arith,
}
use rehlds_m.ThreadSafeQueue.{pop, take_front, empty}
use rehlds_m.ServerLoop.{
  ServerLoop, Task, Phase, at_frame, stopped, Loop, Event, runs, take_task, take_input, advance,
  step, run,
}
use rehlds_m.ServerLoop.Delivery.{all_inputs, all_tasks}

-- The loop's thread alone, with `run_frame` going on.
abbrev pub steps : ℕ → List Event
steps n = replicate n (runs true)

pub run-append : (l : Loop) (es fs : List Event) → run l (es ++ fs) ≡ run (run l es) fs
unfolding run
run-append l [] fs = refl
run-append l (e ∷ es) fs = run-append (step l e) es fs

pub steps-append : (n m : ℕ) → steps n ++ steps m ≡ steps (n + m)
steps-append zero m = let e : m ≡ 0 + m = omega arith in ap steps e
steps-append (suc n) m =
    let e : suc (n + m) ≡ suc n + m = omega arith in
    ap (λ q. runs true ∷ q) (steps-append n m) ∙ ap steps e

-- One frame: a step, and those up to the next start of a frame or the end of the loop.
abbrev pub is_between_frames : Phase → Bool
is_between_frames at_frame = true
is_between_frames stopped = true
is_between_frames other = false

unfoldable pub to_frame : ℕ → Loop → Loop
to_frame zero l = l
to_frame (suc fuel) l = elim (is_between_frames l.phase) [
  | true ↦ l
  | false ↦ to_frame fuel (step l (runs true))
]

unfoldable pub frames : ℕ → Loop → Loop
unfolding to_frame
frames zero l = l
frames (suc n) l = frames n (to_frame 5 (step l (runs true)))

-- The start of a frame, with what was done before and what is queued.
abbrev pub at_start : ServerLoop → List Task → List Text → List Task → List Text → Loop
at_start s fulfilled received tasks inputs = record {
  server = record s {
    task_queue = record s.task_queue { queue = tasks };
    input_queue = record s.input_queue { queue = inputs };
  };
  phase = at_frame;
  fulfilled = fulfilled;
  received = received;
}

module _ (s : ServerLoop) where
  -- One frame takes at most five steps, and takes the first of each queue, if it has one.
  pub frame_steps :
      (f : List Task) (r : List Text) (tasks : List Task) (inputs : List Text)
      → (k : ℕ) × (k ≤ 5)
        × (run (at_start s f r tasks inputs) (steps k)
            ≡ at_start s (f ++ take 1 tasks) (r ++ take 1 inputs) (drop 1 tasks) (drop 1 inputs))
  unfolding run step advance take_task take_input pop take_front empty
  frame_steps f r [] [] =
      (3, omega arith, ap₂ (λ a b. at_start s a b [] []) (sym (append-nil f)) (sym (append-nil r)))
  frame_steps f r (t ∷ ts) [] =
      (4, omega arith, ap (λ b. at_start s (f ++ (t ∷ [])) b ts []) (sym (append-nil r)))
  frame_steps f r [] (i ∷ is) =
      (4, omega arith, ap (λ a. at_start s a (r ++ (i ∷ [])) [] is) (sym (append-nil f)))
  frame_steps f r (t ∷ ts) (i ∷ is) = (5, omega arith, refl)

  -- The frame of `frame_steps`.
  to_frame-start :
      (f : List Task) (r : List Text) (tasks : List Task) (inputs : List Text)
      → to_frame 5 (step (at_start s f r tasks inputs) (runs true))
        ≡ at_start s (f ++ take 1 tasks) (r ++ take 1 inputs) (drop 1 tasks) (drop 1 inputs)
  unfolding to_frame step advance take_task take_input pop take_front empty
  to_frame-start f r [] [] =
      ap₂ (λ a b. at_start s a b [] []) (sym (append-nil f)) (sym (append-nil r))
  to_frame-start f r (t ∷ ts) [] = ap (λ b. at_start s (f ++ (t ∷ [])) b ts []) (sym (append-nil r))
  to_frame-start f r [] (i ∷ is) = ap (λ a. at_start s a (r ++ (i ∷ [])) [] is) (sym (append-nil f))
  to_frame-start f r (t ∷ ts) (i ∷ is) = refl

  first_rest {ℓ} : {A : Type ℓ} (xs : List A) → take 1 xs ++ drop 1 xs ≡ xs
  first_rest [] = refl
  first_rest (x ∷ xs) = refl

  joined :
      (f : List Task) (r : List Text) (tasks : List Task) (inputs : List Text)
      → at_start s
          ((f ++ take 1 tasks) ++ drop 1 tasks)
          ((r ++ take 1 inputs) ++ drop 1 inputs)
          []
          []
        ≡ at_start s (f ++ tasks) (r ++ inputs) [] []
  joined f r tasks inputs =
      ap₂ (λ a b. at_start s a b [] [])
        (append_assoc f (take 1 tasks) (drop 1 tasks) ∙ ap (λ q. f ++ q) (first_rest tasks))
        (append_assoc r (take 1 inputs) (drop 1 inputs) ∙ ap (λ q. r ++ q) (first_rest inputs))

  frames_drain :
      (n : ℕ) (f : List Task) (r : List Text) (tasks : List Task) (inputs : List Text)
      → length tasks ≤ n
      → length inputs ≤ n
      → let end = at_start s (f ++ tasks) (r ++ inputs) [] [] in
        (k : ℕ) × (k ≤ 5 * n)
        × (run (at_start s f r tasks inputs) (steps k) ≡ end)
        × (frames n (at_start s f r tasks inputs) ≡ end)
  unfolding run frames
  frames_drain zero f r [] [] h h' =
      let e = ap₂ (λ a b. at_start s a b [] []) (sym (append-nil f)) (sym (append-nil r)) in
      (0, omega arith, e, e)
  frames_drain zero f r (t ∷ ts) inputs h h' = absurd (omega arith)
  frames_drain zero f r [] (i ∷ is) h h' = absurd (omega arith)
  frames_drain (suc n) f r tasks inputs h h' =
      let (k, kl, e) = frame_steps f r tasks inputs in
      let (m, ml, e', framed) =
        frames_drain n (f ++ take 1 tasks) (r ++ take 1 inputs) (drop 1 tasks) (drop 1 inputs)
          (omega (arith, h, length-drop 1 tasks)) (omega (arith, h', length-drop 1 inputs)) in
      (
        k + m,
        omega (arith, kl, ml),
        ap (run (at_start s f r tasks inputs)) (sym (steps-append k m))
            ∙ run-append (at_start s f r tasks inputs) (steps k) (steps m)
            ∙ ap (λ l. run l (steps m)) e
            ∙ e'
            ∙ joined f r tasks inputs,
        ap (frames n) (to_frame-start f r tasks inputs) ∙ framed ∙ joined f r tasks inputs,
      )

-- From the start of a frame, while `run_frame` goes on and no other thread steps in, everything that
-- is queued is done, in its order, after any number of frames that is at least that of the elements
-- of either queue, and these frames are at most five steps each: every future is fulfilled, the
-- engine has every input, and the loop stands at the start of a frame with both queues empty.
pub run-steps :
    (l : Loop) (n : ℕ)
    → l.phase ≡ at_frame
    → length l.server.task_queue.queue ≤ n
    → length l.server.input_queue.queue ≤ n
    → (k : ℕ) × (k ≤ 5 * n)
      × (frames n l ≡ run l (steps k))
      × ((run l (steps k)).fulfilled ≡ all_tasks l)
      × ((run l (steps k)).received ≡ all_inputs l)
      × ((run l (steps k)).server.task_queue.queue ≡ [])
      × ((run l (steps k)).server.input_queue.queue ≡ [])
      × ((run l (steps k)).phase ≡ at_frame)
run-steps l n e h h' =
    let (k, kl, p, framed) =
      frames_drain l.server n l.fulfilled l.received l.server.task_queue.queue
        l.server.input_queue.queue h h' in
    let q = ap (λ phase. run (record l { phase = phase }) (steps k)) e ∙ p in
    let q' = ap (λ phase. frames n (record l { phase = phase })) e ∙ framed in
    (
      k,
      kl,
      q' ∙ sym q,
      ap (λ m. m.fulfilled) q,
      ap (λ m. m.received) q,
      ap (λ m. m.server.task_queue.queue) q,
      ap (λ m. m.server.input_queue.queue) q,
      ap (λ m. m.phase) q,
    )
