-- ===== src/Presenter/Matches.antt =====
-- libs/presenter/include/presenter/input_presenter.hpp: `InputPresenter::find_command_matches`, which
-- lets the server loop run the search of the console's commands, and waits for its future.
use rehlds_m.Base.{
  ℕ, ◌*◌, ◌≤◌, ◌≡◌, refl, ap, ◌∙◌, true, false, if◌then◌else◌, ◌==◌, Option, none, some, List, [],
  ◌∷◌, ◌++◌, length, Text, arith,
}
use rehlds_m.ThreadSafeQueue.{elem, push}
use rehlds_m.ServerLoop.{Loop, Task, Event, stopped, at_frame, enqueue_task, run}
use rehlds_m.ServerLoop.Frames.{steps, run-steps}
use rehlds_m.ServerLoop.Pending.{run-stopped}

-- The loop, and what each task searches for that was asked.
pub record Searches : Type 0 where
  pub loop : Loop
  pub asked : List (Task × Text)

abbrev pub asked_text : List (Task × Text) → Task → Option Text
asked_text [] task = none
asked_text ((t, command) ∷ asked) task = if t == task then some command else asked_text asked task

abbrev found {ℓ} : {A B : Type ℓ} → (A → B) → Option A → Option B
found find none = none
found find (some command) = some (find command)

module _ (find : Text → List Text) where
  -- The first half, up to the waiting; the task is the number of its future.
  unfoldable pub ask : Task → Searches → Text → Searches
  unfolding enqueue_task
  ask task s command = record {
    loop = record s.loop { server = enqueue_task s.loop.server task };
    asked = (task, command) ∷ s.asked;
  }

  -- `matches.get()`; none is a call that waits.
  unfoldable pub get : Searches → Task → Option (List Text)
  get s task =
      let matches = found find (asked_text s.asked task) in
      if elem task s.loop.fulfilled then matches else none

  unfoldable pub later : Searches → List Event → Searches
  unfolding run
  later s events = record s { loop = run s.loop events }

  elem-append :
      (task : Task) (xs ys : List Task) → elem task ys ≡ true → elem task (xs ++ ys) ≡ true
  elem-append task [] ys h = h
  elem-append task (x ∷ xs) ys h = ground (arith, elem-append task xs ys h)

  -- A search that is asked at the start of a frame is answered, with what is found for its text,
  -- while `run_frame` goes on and no other thread steps in, after at most five steps for each of
  -- the frames that the longer queue needs.
  pub get-ask :
      (s : Searches) (task : Task) (command : Text) (n : ℕ)
      → s.loop.phase ≡ at_frame
      → length (s.loop.server.task_queue.queue ++ (task ∷ [])) ≤ n
      → length s.loop.server.input_queue.queue ≤ n
      → (k : ℕ) × (k ≤ 5 * n)
        × (get (later (ask task s command) (steps k)) task ≡ some (find command))
  unfolding get later ask enqueue_task push
  get-ask s task command n e h h' =
      let (k, bound, framed, done, received, no_tasks, no_inputs, ready) =
        run-steps (ask task s command).loop n e h h' in
      let here : elem task (task ∷ []) ≡ true = ground arith in
      let answered : elem task (run (ask task s command).loop (steps k)).fulfilled ≡ true =
        ap (elem task) done
        ∙ elem-append task s.loop.fulfilled (s.loop.server.task_queue.queue ++ (task ∷ []))
            (elem-append task s.loop.server.task_queue.queue (task ∷ []) here) in
      let same : (task == task) ≡ true = ground arith in (k, bound, rw (answered, same) refl)

  -- A search that is asked when the loop has ended, under the number of a future that is not
  -- fulfilled, is never answered, whatever the threads do: its caller waits for ever.
  pub get-ask_stopped :
      (s : Searches) (task : Task) (command : Text) (events : List Event)
      → s.loop.phase ≡ stopped
      → elem task s.loop.fulfilled ≡ false
      → get (later (ask task s command) events) task ≡ none
  unfolding get later ask enqueue_task push
  get-ask_stopped s task command events e new =
      let unfulfilled = (run-stopped (ask task s command).loop events e).1 in
      rw (ap (elem task) unfulfilled ∙ new) refl
