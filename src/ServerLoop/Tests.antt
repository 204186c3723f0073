-- ===== src/ServerLoop/Tests.antt =====
-- A loop with two inputs and a task, through its frames.
use rehlds_m.Base.{ℕ, ◌≤◌, ◌*◌, ◌≡◌, refl, true, List, [], ◌∷◌, Text, arith}
use rehlds_m.Base.Int.{pos}
use rehlds_m.Stringpy.{newline}
use rehlds_m.ServerLoop.{
  ServerLoop, Loop, Phase, Event, at_frame, taking_input, not_set, runs, enters, asks, run,
}
use rehlds_m.ServerLoop.Delivery.{IsReady, all_inputs, all_tasks, run-inputs}
use rehlds_m.ServerLoop.Frames.{steps, frames, run-steps}

abbrev a : Text
a = b'a' ∷ []

abbrev b : Text
b = b'b' ∷ []

abbrev queued : ServerLoop
queued = record {
  pingboost_level = not_set;
  target_fps_ = pos 0;
  status = record { fps = 0; num_players = 0; max_players = 0; current_map = [] };
  task_queue = record { queue = 7 ∷ []; sleepers = [] };
  input_queue = record { queue = a ∷ b ∷ []; sleepers = [] };
  listeners = record { listeners = []; next_handle = 0 };
}

abbrev loop_at : Phase → Loop
loop_at phase = record { server = queued; phase = phase; fulfilled = []; received = [] }

-- Between the test of the inputs and the `pop`, another input comes.
abbrev some_events : List Event
some_events = enters (b'c' ∷ []) ∷ runs true ∷ runs true ∷ asks 8 ∷ runs true ∷ []

run-inputs_example :
    let l = run (loop_at taking_input) some_events in
    IsReady l × (all_inputs l ≡ a ∷ b ∷ (b'c' ∷ newline ∷ []) ∷ []) × (all_tasks l ≡ 7 ∷ 8 ∷ [])
run-inputs_example = run-inputs (loop_at taking_input) some_events tt

run-steps_example :
    (k : ℕ) × (k ≤ 5 * 2)
    × (frames 2 (loop_at at_frame) ≡ run (loop_at at_frame) (steps k))
    × ((run (loop_at at_frame) (steps k)).fulfilled ≡ 7 ∷ [])
    × ((run (loop_at at_frame) (steps k)).received ≡ a ∷ b ∷ [])
    × ((run (loop_at at_frame) (steps k)).server.task_queue.queue ≡ [])
    × ((run (loop_at at_frame) (steps k)).server.input_queue.queue ≡ [])
    × ((run (loop_at at_frame) (steps k)).phase ≡ at_frame)
run-steps_example = run-steps (loop_at at_frame) 2 refl (omega arith) (omega arith)
