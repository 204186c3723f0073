-- ===== src/ServerLoop/Pending.antt =====
-- The tasks that are queued when the loop has ended.
use rehlds_m.Base.{◌≡◌, refl, sym, ap, ◌∙◌, List, [], ◌∷◌, ◌++◌, append-nil, append_assoc}
use rehlds_m.ThreadSafeQueue.{push}
use rehlds_m.ServerLoop.{
  Loop, Task, Event, runs, enters, asks, stopped, advance, step, run, enqueue_input, enqueue_task,
}
use rehlds_m.ServerLoop.Delivery.{tasks, tasks_of}

abbrev StaysStopped : Loop → Loop → List Task → Type 0
StaysStopped l l' ts =
    (l'.phase ≡ stopped)
    × (l'.fulfilled ≡ l.fulfilled)
    × (l'.server.task_queue.queue ≡ l.server.task_queue.queue ++ ts)

step-StaysStopped :
    (l : Loop) (event : Event) → l.phase ≡ stopped → StaysStopped l (step l event) (tasks_of event)
unfolding step advance enqueue_input enqueue_task push
step-StaysStopped l (runs goes_on) e =
    rw (e, step, advance) (refl, refl, sym (append-nil l.server.task_queue.queue))
step-StaysStopped l (enters input) e = (e, refl, sym (append-nil l.server.task_queue.queue))
step-StaysStopped l (asks task) e = (e, refl, refl)

-- Once the loop has ended, whatever the threads do, no future is fulfilled any more: every task
-- that was queued then, or is enqueued later, stays in the queue.
pub run-stopped :
    (l : Loop) (events : List Event)
    → l.phase ≡ stopped
    → ((run l events).phase ≡ stopped)
      × ((run l events).fulfilled ≡ l.fulfilled)
      × ((run l events).server.task_queue.queue ≡ l.server.task_queue.queue ++ tasks events)
unfolding run
run-stopped l [] e = (e, refl, sym (append-nil l.server.task_queue.queue))
run-stopped l (event ∷ events) e =
    let (p, f, q) = step-StaysStopped l event e in
    let (p', f', q') = run-stopped (step l event) events p in
    (
      p',
      f' ∙ f,
      q'
          ∙ ap (λ ts. ts ++ tasks events) q
          ∙ append_assoc l.server.task_queue.queue (tasks_of event) (tasks events),
    )
