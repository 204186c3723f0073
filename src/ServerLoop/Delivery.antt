-- ===== src/ServerLoop/Delivery.antt =====
-- What the loop makes of the two queues, in every interleaving with the threads that fill them.
use rehlds_m.Base.{
  ℕ, subst, ◌⊎◌, inl, inr, ◌≡◌, refl, sym, ap, ◌∙◌, Bool, true, false, List, [], ◌∷◌, ◌++◌,
  append-nil, append_assoc, Text,
}
use rehlds_m.Stringpy.{newline}
use rehlds_m.ThreadSafeQueue.{ThreadSafeQueue, pop, take_front, empty, push}
use rehlds_m.ServerLoop.{
  Task, Phase, at_frame, at_tasks, taking_task, at_input, taking_input, stopped, blocked, Loop,
  Event, runs, enters, asks, enqueue_input, enqueue_task, take_task, take_input, advance, step, run,
}

-- What the other threads enqueued, oldest first.
abbrev pub inputs_of : Event → List Text
inputs_of (runs goes_on) = []
inputs_of (enters input) = (input ++ (newline ∷ [])) ∷ []
inputs_of (asks task) = []

abbrev pub tasks_of : Event → List Task
tasks_of (runs goes_on) = []
tasks_of (enters input) = []
tasks_of (asks task) = task ∷ []

abbrev pub inputs : List Event → List Text
inputs [] = []
inputs (event ∷ events) = inputs_of event ++ inputs events

abbrev pub tasks : List Event → List Task
tasks [] = []
tasks (event ∷ events) = tasks_of event ++ tasks events

-- Everything that was put into a queue, in the order of its removal.
abbrev pub all_inputs : Loop → List Text
all_inputs l = l.received ++ l.server.input_queue.queue

abbrev pub all_tasks : Loop → List Task
all_tasks l = l.fulfilled ++ l.server.task_queue.queue

abbrev pub HasFirst {ℓ} : {A : Type ℓ} → List A → Type 0
HasFirst [] = ⊥
HasFirst (x ∷ xs) = Unit {0}

-- What stands between the test of a queue and its `pop` still holds.
abbrev pub Ready : Phase → Loop → Type 0
Ready taking_task l = HasFirst l.server.task_queue.queue
Ready taking_input l = HasFirst l.server.input_queue.queue
Ready blocked l = ⊥
Ready at_frame l = Unit {0}
Ready at_tasks l = Unit {0}
Ready at_input l = Unit {0}
Ready stopped l = Unit {0}

abbrev pub IsReady : Loop → Type 0
IsReady l = Ready l.phase l

HasFirst-append {ℓ} : {A : Type ℓ} (xs ys : List A) → HasFirst xs → HasFirst (xs ++ ys)
HasFirst-append [] ys h = absurd h
HasFirst-append (x ∷ xs) ys h = tt

-- What a queue that is not empty gives.
pub first_of {ℓ} :
    {A : Type ℓ} (xs : List A) → HasFirst xs → (x : A) × (rest : List A) × (xs ≡ x ∷ rest)
first_of [] h = absurd h
first_of (x ∷ xs) h = (x, xs, refl)

pub empty_cases {ℓ} :
    {A : Type ℓ} (items : List A) (sleepers : List ℕ)
    → let q : ThreadSafeQueue A = record { queue = items; sleepers = sleepers } in
      (empty q ≡ true) ⊎ ((empty q ≡ false) × HasFirst items)
unfolding empty
empty_cases [] sleepers = inl refl
empty_cases (x ∷ xs) sleepers = inr (refl, tt)

pub take_task-cons :
    (l : Loop) (task : Task) (rest : List Task)
    → l.server.task_queue.queue ≡ task ∷ rest
    → take_task l ≡ record l {
      server = record l.server { task_queue = record l.server.task_queue { queue = rest } };
      phase = at_input;
      fulfilled = l.fulfilled ++ (task ∷ []);
    }
unfolding take_task pop take_front
take_task-cons l task rest e =
    ap
      (λ items. take_task (record l {
        server = record l.server { task_queue = record l.server.task_queue { queue = items } };
      }))
      e

pub take_input-cons :
    (l : Loop) (input : Text) (rest : List Text)
    → l.server.input_queue.queue ≡ input ∷ rest
    → take_input l ≡ record l {
      server = record l.server { input_queue = record l.server.input_queue { queue = rest } };
      phase = at_frame;
      received = l.received ++ (input ∷ []);
    }
unfolding take_input pop take_front
take_input-cons l input rest e =
    ap
      (λ items. take_input (record l {
        server = record l.server { input_queue = record l.server.input_queue { queue = items } };
      }))
      e

-- A step keeps the tests valid, and adds to the queues what its event enqueues.
record Keeps (l l' : Loop) (xs : List Text) (ts : List Task) : Type 0 where
  ready : IsReady l'
  inputs_kept : all_inputs l' ≡ all_inputs l ++ xs
  tasks_kept : all_tasks l' ≡ all_tasks l ++ ts

Keeps-still :
    (l l' : Loop)
    → IsReady l'
    → all_inputs l' ≡ all_inputs l
    → all_tasks l' ≡ all_tasks l
    → Keeps l l' [] []
Keeps-still l l' h e f = record {
  ready = h;
  inputs_kept = e ∙ sym (append-nil (all_inputs l));
  tasks_kept = f ∙ sym (append-nil (all_tasks l));
}

take_task-Keeps : (l : Loop) → HasFirst l.server.task_queue.queue → Keeps l (take_task l) [] []
take_task-Keeps l h =
    let (task, rest, e) = first_of l.server.task_queue.queue h in
    subst (λ l'. Keeps l l' [] []) (sym (take_task-cons l task rest e))
      (Keeps-still l _ tt refl
        (append_assoc l.fulfilled (task ∷ []) rest ∙ ap (λ q. l.fulfilled ++ q) (sym e)))

take_input-Keeps : (l : Loop) → HasFirst l.server.input_queue.queue → Keeps l (take_input l) [] []
take_input-Keeps l h =
    let (input, rest, e) = first_of l.server.input_queue.queue h in
    subst (λ l'. Keeps l l' [] []) (sym (take_input-cons l input rest e))
      (Keeps-still l _ tt
        (append_assoc l.received (input ∷ []) rest ∙ ap (λ q. l.received ++ q) (sym e)) refl)

at_phase :
    (l : Loop) (p : Phase)
    → Ready p (record l { phase = p })
    → Keeps l (record l { phase = p }) [] []
at_phase l p h = Keeps-still l (record l { phase = p }) h refl refl

advance-Keeps :
    (p : Phase) (goes_on : Bool) (l : Loop)
    → l.phase ≡ p
    → Ready p l
    → Keeps l (advance p goes_on l) [] []
unfolding advance
advance-Keeps at_frame true l e h = at_phase l at_tasks tt
advance-Keeps at_frame false l e h = at_phase l stopped tt
advance-Keeps at_tasks goes_on l e h =
    elim (empty_cases l.server.task_queue.queue l.server.task_queue.sleepers) [
      | inl k ↦ rw (k, advance) (at_phase l at_input tt)
      | inr (k, first) ↦ rw (k, advance) (at_phase l taking_task first)
    ]
advance-Keeps taking_task goes_on l e h = take_task-Keeps l h
advance-Keeps at_input goes_on l e h =
    elim (empty_cases l.server.input_queue.queue l.server.input_queue.sleepers) [
      | inl k ↦ rw (k, advance) (at_phase l at_frame tt)
      | inr (k, first) ↦ rw (k, advance) (at_phase l taking_input first)
    ]
advance-Keeps taking_input goes_on l e h = take_input-Keeps l h
advance-Keeps stopped goes_on l e h = Keeps-still l l (subst (λ p. Ready p l) (sym e) tt) refl refl
advance-Keeps blocked goes_on l e h = absurd h

Ready-enqueue_input :
    (p : Phase) (l : Loop) (input : Text)
    → Ready p l
    → Ready p (record l { server = enqueue_input l.server input })
unfolding enqueue_input push
Ready-enqueue_input at_frame l input h = tt
Ready-enqueue_input at_tasks l input h = tt
Ready-enqueue_input taking_task l input h = h
Ready-enqueue_input at_input l input h = tt
Ready-enqueue_input taking_input l input h =
    HasFirst-append l.server.input_queue.queue ((input ++ (newline ∷ [])) ∷ []) h
Ready-enqueue_input stopped l input h = tt
Ready-enqueue_input blocked l input h = h

Ready-enqueue_task :
    (p : Phase) (l : Loop) (task : Task)
    → Ready p l
    → Ready p (record l { server = enqueue_task l.server task })
unfolding enqueue_task push
Ready-enqueue_task at_frame l task h = tt
Ready-enqueue_task at_tasks l task h = tt
Ready-enqueue_task taking_task l task h = HasFirst-append l.server.task_queue.queue (task ∷ []) h
Ready-enqueue_task at_input l task h = tt
Ready-enqueue_task taking_input l task h = h
Ready-enqueue_task stopped l task h = tt
Ready-enqueue_task blocked l task h = h

step-Keeps :
    (l : Loop) (event : Event)
    → IsReady l
    → Keeps l (step l event) (inputs_of event) (tasks_of event)
unfolding step enqueue_input enqueue_task push
step-Keeps l (runs goes_on) h = advance-Keeps l.phase goes_on l refl h
step-Keeps l (enters input) h = record {
  ready = Ready-enqueue_input l.phase l input h;
  inputs_kept =
      sym (append_assoc l.received l.server.input_queue.queue ((input ++ (newline ∷ [])) ∷ []));
  tasks_kept = sym (append-nil (all_tasks l));
}
step-Keeps l (asks task) h = record {
  ready = Ready-enqueue_task l.phase l task h;
  inputs_kept = sym (append-nil (all_inputs l));
  tasks_kept = sym (append_assoc l.fulfilled l.server.task_queue.queue (task ∷ []));
}

-- In every interleaving of the loop's steps with those of the threads that enqueue, the loop never
-- waits in a `pop`, although its test of a queue and the `pop` are two steps; the engine was given,
-- and the queue still holds, exactly the inputs that were entered, each with its line feed, in
-- their order; and so for the tasks.
pub run-inputs :
    (l : Loop) (events : List Event)
    → IsReady l
    → (IsReady (run l events))
      × (all_inputs (run l events) ≡ all_inputs l ++ inputs events)
      × (all_tasks (run l events) ≡ all_tasks l ++ tasks events)
unfolding run
run-inputs l [] h = (h, sym (append-nil (all_inputs l)), sym (append-nil (all_tasks l)))
run-inputs l (event ∷ events) h =
    let k = step-Keeps l event h in
    let (r, e, f) = run-inputs (step l event) events k.ready in
    (
      r,
      e
          ∙ ap (λ q. q ++ inputs events) k.inputs_kept
          ∙ append_assoc (all_inputs l) (inputs_of event) (inputs events),
      f
          ∙ ap (λ q. q ++ tasks events) k.tasks_kept
          ∙ append_assoc (all_tasks l) (tasks_of event) (tasks events),
    )
