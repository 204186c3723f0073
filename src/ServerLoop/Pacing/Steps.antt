-- ===== src/ServerLoop/Pacing/Steps.antt =====
-- The loop at a target frame rate does with the queues what the loop with a sleeping function does.
use rehlds_m.Base.{
  Bool, false, ℕ, zero, suc, ◌+◌, ◌*◌, ◌≤◌, ◌≡◌, refl, sym, ap, ap₂, ◌∙◌, true, List, [], ◌∷◌, ◌++◌,
  append-nil, append_assoc, length, take, drop, drop-drop-one, Text, arith,
}
use rehlds_m.Base.Int.{ℤ}
use rehlds_m.ThreadSafeQueue.{pop, take_front, empty}
use rehlds_m.ServerLoop.{
  ServerLoop, ServerStatus, blank_map, Task, Loop, at_frame, update_status, run,
}
use rehlds_m.ServerLoop.Frames.{steps, at_start, frame_steps, steps-append, run-append}
use rehlds_m.ServerLoop.Pacing.{
  Double, Platform, Frame, Paced, started, process_tasks, process_input, frame_status,
  target_sleep_duration, paced_frame, paced_frames, run_paced,
}

-- A frame takes the first of each queue, if it has one.
pub process_queues :
    (s : ServerLoop) (f : List Task) (r : List Text) (tasks : List Task) (inputs : List Text)
    → process_input (process_tasks (at_start s f r tasks inputs))
      ≡ at_start s (f ++ take 1 tasks) (r ++ take 1 inputs) (drop 1 tasks) (drop 1 inputs)
unfolding process_input process_tasks pop take_front empty
process_queues s f r [] [] =
    ap₂ (λ a b. at_start s a b [] []) (sym (append-nil f)) (sym (append-nil r))
process_queues s f r (t ∷ ts) [] = ap (λ b. at_start s (f ++ (t ∷ [])) b ts []) (sym (append-nil r))
process_queues s f r [] (i ∷ is) = ap (λ a. at_start s a (r ++ (i ∷ [])) [] is) (sym (append-nil f))
process_queues s f r (t ∷ ts) (i ∷ is) = refl

take-one {ℓ} :
    {A : Type ℓ} (n : ℕ) (xs : List A) → take 1 xs ++ take n (drop 1 xs) ≡ take (suc n) xs
take-one zero [] = refl
take-one (suc n) [] = refl
take-one n (x ∷ xs) = refl

-- What is done of the queues in `n` frames.
abbrev pub after : ServerLoop → List Task → List Text → List Task → List Text → ℕ → Loop
after s f r tasks inputs n =
    at_start s (f ++ take n tasks) (r ++ take n inputs) (drop n tasks) (drop n inputs)

pub after-zero :
    (s : ServerLoop) (f : List Task) (r : List Text) (tasks : List Task) (inputs : List Text)
    → at_start s f r tasks inputs ≡ after s f r tasks inputs 0
after-zero s f r tasks inputs =
    ap₂ (λ a b. at_start s a b tasks inputs) (sym (append-nil f)) (sym (append-nil r))

done-suc {ℓ} :
    {A : Type ℓ} (xs ys : List A) (n : ℕ)
    → (xs ++ take 1 ys) ++ take n (drop 1 ys) ≡ xs ++ take (suc n) ys
done-suc xs ys n =
    append_assoc xs (take 1 ys) (take n (drop 1 ys)) ∙ ap (λ q. xs ++ q) (take-one n ys)

pub after-suc :
    (s : ServerLoop) (f : List Task) (r : List Text) (tasks : List Task) (inputs : List Text)
    (n : ℕ)
    → after s (f ++ take 1 tasks) (r ++ take 1 inputs) (drop 1 tasks) (drop 1 inputs) n
      ≡ after s f r tasks inputs (suc n)
after-suc s f r tasks inputs n = λ i.
    at_start s (done-suc f tasks n i) (done-suc r inputs n i) (drop-drop-one tasks n i)
      (drop-drop-one inputs n i)

-- The status is no part of the queues.
frame_status-cases :
    (least_sleep : ℕ) (updates_status is_time : Bool) (measured : ℤ → ℤ)
    (update : ServerStatus → ServerStatus) (p : Paced) (l : Loop)
    → p.loop ≡ l
    → (status : ServerStatus) × ((frame_status
          (record { least_sleep = least_sleep; updates_status = updates_status })
          (record { measured = measured; is_time = is_time; update = update })
          p).loop
        ≡ record l { server = record l.server { status = status } })
unfolding frame_status update_status
frame_status-cases least_sleep false is_time measured update p l e = (l.server.status, e)
frame_status-cases least_sleep true false measured update p l e = (l.server.status, e)
frame_status-cases least_sleep true true measured update p l e =
    let status = update (record p.loop.server.status { current_map = blank_map }) in
    (status, ap {A = Loop} (λ m. record m { server = record m.server { status = status } }) e)

module _ (d : Double) (platform : Platform) (target : ℤ) where
  paced_frames-after :
      (frames : List Frame) (p : Paced) (s : ServerLoop) (f : List Task) (r : List Text)
      (tasks : List Task) (inputs : List Text)
      → p.loop ≡ at_start s f r tasks inputs
      → (s' : ServerLoop) × ((paced_frames d platform target frames p).loop
          ≡ after s' f r tasks inputs (length frames))
  unfolding paced_frames paced_frame
  paced_frames-after [] p s f r tasks inputs e = (s, e ∙ after-zero s f r tasks inputs)
  paced_frames-after (frame ∷ frames) p s f r tasks inputs e =
      let (status, e1) =
        frame_status-cases platform.least_sleep platform.updates_status frame.is_time frame.measured
          frame.update p (at_start s f r tasks inputs) e in
      let s1 = record s { status = status } in
      let (s2, e2) =
        paced_frames-after frames (paced_frame d platform target frame p) s1 (f ++ take 1 tasks)
          (r ++ take 1 inputs) (drop 1 tasks) (drop 1 inputs)
          (ap (λ l. process_input (process_tasks l)) e1 ∙ process_queues s1 f r tasks inputs) in
      (s2, e2 ∙ after-suc s2 f r tasks inputs (length frames))

module _ (s : ServerLoop) where
  steps-after :
      (n : ℕ) (f : List Task) (r : List Text) (tasks : List Task) (inputs : List Text)
      → (k : ℕ) × (k ≤ 5 * n)
        × (run (at_start s f r tasks inputs) (steps k) ≡ after s f r tasks inputs n)
  unfolding run
  steps-after zero f r tasks inputs = (0, omega arith, after-zero s f r tasks inputs)
  steps-after (suc n) f r tasks inputs =
      let (k, kl, e) = frame_steps s f r tasks inputs in
      let (m, ml, e') =
        steps-after n (f ++ take 1 tasks) (r ++ take 1 inputs) (drop 1 tasks) (drop 1 inputs) in
      (
        k + m,
        omega (arith, kl, ml),
        ap (run (at_start s f r tasks inputs)) (sym (steps-append k m))
            ∙ run-append (at_start s f r tasks inputs) (steps k) (steps m)
            ∙ ap (λ l. run l (steps m)) e
            ∙ e'
            ∙ after-suc s f r tasks inputs n,
      )

-- What a loop did with the queues, and what is left.
abbrev pub SameQueues : Loop → Loop → Type 0
SameQueues l m =
    (l.fulfilled ≡ m.fulfilled)
    × (l.received ≡ m.received)
    × (l.server.task_queue.queue ≡ m.server.task_queue.queue)
    × (l.server.input_queue.queue ≡ m.server.input_queue.queue)
    × (l.phase ≡ m.phase)

-- What is known of a loop that is as after some frames.
pub after-SameQueues :
    (l m : Loop) (s' : ServerLoop) (n : ℕ)
    → l.phase ≡ at_frame
    → m ≡ after s' l.fulfilled l.received l.server.task_queue.queue l.server.input_queue.queue n
    → (k : ℕ) × (k ≤ 5 * n)
      × SameQueues m (run l (steps k))
      × (m.fulfilled ≡ l.fulfilled ++ take n l.server.task_queue.queue)
      × (m.received ≡ l.received ++ take n l.server.input_queue.queue)
after-SameQueues l m s' n e p =
    let tasks = l.server.task_queue.queue in
    let inputs = l.server.input_queue.queue in
    let here = ap (λ phase. record l { phase = phase }) e in
    let (k, kl, q) = steps-after l.server n l.fulfilled l.received tasks inputs in
    let r = ap (λ m. run m (steps k)) here ∙ q in
    (
      k,
      kl,
      (
        ap (λ m. m.fulfilled) p ∙ sym (ap (λ m. m.fulfilled) r),
        ap (λ m. m.received) p ∙ sym (ap (λ m. m.received) r),
        ap (λ m. m.server.task_queue.queue) p ∙ sym (ap (λ m. m.server.task_queue.queue) r),
        ap (λ m. m.server.input_queue.queue) p ∙ sym (ap (λ m. m.server.input_queue.queue) r),
        ap (λ m. m.phase) p ∙ sym (ap (λ m. m.phase) r),
      ),
      ap (λ m. m.fulfilled) p,
      ap (λ m. m.received) p,
    )

-- From the start of a frame, whatever the platform, the arithmetic, the rate and the clocks, and
-- while no other thread steps in: after any number of frames at a target frame rate the queues are
-- as the loop with a sleeping function leaves them after some steps, at most five for a frame; and
-- that is the first task and the first input of each frame done, in their order.
pub run_paced-steps :
    (d : Double) (platform : Platform) (target_fps : ℤ) (frames : List Frame) (l : Loop)
    → l.phase ≡ at_frame
    → let n = length frames in
      let m = (run_paced d platform target_fps frames l).loop in
      (k : ℕ) × (k ≤ 5 * n)
      × SameQueues m (run l (steps k))
      × (m.fulfilled ≡ l.fulfilled ++ take n l.server.task_queue.queue)
      × (m.received ≡ l.received ++ take n l.server.input_queue.queue)
unfolding run_paced
run_paced-steps d platform target_fps frames l e =
    let here = ap (λ phase. record l { phase = phase }) e in
    let (s', p) =
      paced_frames-after d platform (target_sleep_duration d target_fps) frames (started l) l.server
        l.fulfilled l.received l.server.task_queue.queue l.server.input_queue.queue here in
    after-SameQueues l (run_paced d platform target_fps frames l).loop s' (length frames) e p
