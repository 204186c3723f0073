-- ===== src/Hlds.antt =====
-- apps/hlds/src/hlds/hlds.main.cpp: `run_server_loop`, the objects of the program and how they share
-- the queue of the inputs, with `ConsoleInput::start` and `stop` of
-- libs/view/src/view/console_input.cpp. The console's thread and the loop's take turns in any order,
-- a key or a step at a time. The loading of the engine is that of Init.Modules.
pub mod Typing
pub mod Entered
mod Tests
use rehlds_m.Base.{
  ℕ, Bool, true, false, if◌then◌else◌, Option, none, some, List, [], ◌∷◌, ◌++◌, Text,
}
use rehlds_m.Base.Int.{pos}
use rehlds_m.Stringpy.{Stringpy}
use rehlds_m.File.{Disk, Stream}
use rehlds_m.History.{new_history}
use rehlds_m.Presenter.{InputPresenter, new_presenter}
use rehlds_m.OutputPresenter.{new_output_presenter}
use rehlds_m.ServerLoop.{ServerLoop, Loop, Event, runs, not_set, at_frame, stopped, step}
use rehlds_m.Init.{init_server_loop}
use rehlds_m.Console.{ConsoleInput, Output}
use rehlds_m.Console.Shown.{start}
use rehlds_m.Console.Keys.{Key, press}

-- `running` is the console's flag, and `reads` says that its thread has not ended.
pub record Hlds : Type 0 where
  pub loop : Loop
  pub console : ConsoleInput
  pub running : Bool
  pub reads : Bool
  pub engine_runs : Bool

abbrev pub history_file : Text
history_file =
    (b'i' ∷ b'n' ∷ b'p' ∷ b'u' ∷ b't' ∷ b'_' ∷ b'h' ∷ b'i' ∷ b's' ∷ b't' ∷ b'o' ∷ b'r' ∷ b'y' ∷ b'.'
      ∷ b't' ∷ b'x' ∷ b't' ∷ [])

abbrev pub new_server_loop : ServerLoop
new_server_loop = record {
  pingboost_level = not_set;
  target_fps_ = pos 0;
  status = record { fps = 0; num_players = 0; max_players = 0; current_map = [] };
  task_queue = record { queue = []; sleepers = [] };
  input_queue = record { queue = []; sleepers = [] };
  listeners = record { listeners = []; next_handle = 0 };
}

-- `ConsoleInput::start`; the thread begins with the line that the console has.
unfoldable pub start_console : Hlds → Hlds
start_console h = if h.running then h else record h { running = true; reads = true }

-- `ConsoleInput::stop`, of which the test and `running_ = false` are a step, and `join` another,
-- which waits where the thread has not ended: `none`.
unfoldable pub stop_console : Hlds → Hlds
stop_console h = if h.running then record h { running = false } else h

unfoldable pub join_console : Hlds → Option Hlds
join_console h = if h.reads then none else some h

-- The queue is the server loop's; the presenter has a pointer to it.
abbrev pub shares : Hlds → ConsoleInput
shares h = record h.console {
  input_presenter = record h.console.input_presenter {
    input_queue = h.loop.server.input_queue.queue;
  };
}

abbrev pub shared_by : Hlds → ConsoleInput → Hlds
shared_by h c = record h {
  console = c;
  loop = record h.loop {
    server = record h.loop.server {
      input_queue = record h.loop.server.input_queue { queue = c.input_presenter.input_queue };
    };
  };
}

abbrev pub pressed_as : Hlds → Option (ConsoleInput × Output) → Option Hlds
pressed_as h none = none
pressed_as h (some (c, out)) = some (shared_by h c)

-- The end of `run_server_loop`, behind the loop: the shutdown of the engine, and of the destructors
-- that of the console, up to the join.
unfoldable pub finish : Hlds → Hlds
unfolding stop_console
finish h = stop_console (record h { engine_runs = false })

-- A step of the console's thread, which reads a key or sees that it is to end, or of the loop's.
pub data Act : Type 0 where
  presses : Key → Act
  ends : Act
  loops : Bool → Act

abbrev pub act_next : (Hlds → Option Hlds) → Option Hlds → Option Hlds
act_next next none = none
act_next next (some h) = next h

module _ (str : Stringpy) (io : Stream) where
  -- The objects as they are made, with the log of the history's loading left out. The first
  -- listener is the output presenter's.
  unfoldable pub construct : Disk → Text → Hlds
  unfolding init_server_loop new_presenter new_output_presenter new_history start_console
  construct disk args =
      let presenter = (new_presenter str io disk [] (new_history history_file)).0 in
      start_console (record {
        loop = record {
          server = new_output_presenter (init_server_loop args new_server_loop) 0;
          phase = at_frame;
          fulfilled = [];
          received = [];
        };
        console = start presenter;
        running = false;
        reads = false;
        engine_runs = true;
      })

module _ (str : Stringpy) (find_command_matches : Text → List Text) (console_width : ℕ)
    (io : Stream) where
  -- `none` is the exception that the tab key may throw. Keys are read while the thread runs.
  unfoldable pub act : Hlds → Act → Option Hlds
  unfolding press step
  act h (presses key) =
      if h.reads
      then pressed_as h (press str find_command_matches console_width io (shares h) key)
      else some h
  act h ends = some (if h.running then h else record h { reads = false })
  act h (loops goes_on) = some (record h { loop = step h.loop (runs goes_on) })

  unfoldable pub act_each : List Act → Hlds → Option Hlds
  unfolding act
  act_each [] h = some h
  act_each (a ∷ acts) h = act_next (act_each acts) (act h a)
