-- ===== src/ServerLoop.antt =====
-- libs/model/include/model/server_loop.hpp, libs/model/src/model/server_loop.cpp and the
-- server_loop.cpp files of libs/model/src/model/linux and libs/model/src/model/windows:
-- `Model::ServerLoop`, the loop that runs the engine's frames and, between them, one task and one
-- input of the other threads. A task is the number of its future, which running it fulfils. Which
-- of the sleeping functions is chosen is here; Sleep has what they ask for.
pub mod Delivery
pub mod Frames
pub mod Pending
pub mod Clock
pub mod Timer
pub mod Pacing
pub mod Sleep
mod Tests
use rehlds_m.Base.{
  ℕ, zero, suc, Bool, true, false, not, if◌then◌else◌, ltb, ◌&&◌, Option, none, some, List, [], ◌∷◌,
  ◌++◌, replicate, Text,
}
use rehlds_m.Base.Int.{ℤ, pos, negsuc}
use rehlds_m.Stringpy.{newline}
use rehlds_m.ThreadSafeQueue.{ThreadSafeQueue, push, pop, empty}
use rehlds_m.ThreadSafeQueue
use rehlds_m.Observable.{Observable, notify}

pub data PingBoostLevel : Type 0 where
  not_set level1 level2 level3 level4 level5 target_fps : PingBoostLevel

pub data ServerLoopEvent : Type 0 where
  status_updated : ServerLoopEvent

-- The frame rate stands for the number that the engine gives.
pub record ServerStatus : Type 0 where
  pub fps : ℕ
  pub num_players : ℕ
  pub max_players : ℕ
  pub current_map : Text

abbrev pub Task : Type 0
Task = ℕ

pub record ServerLoop : Type 0 where
  pub pingboost_level : PingBoostLevel
  pub target_fps_ : ℤ
  pub status : ServerStatus
  pub task_queue : ThreadSafeQueue Task
  pub input_queue : ThreadSafeQueue Text
  -- A listener is what it is told.
  pub listeners : Observable ℕ

unfoldable pub set_pingboost_level : ServerLoop → PingBoostLevel → ServerLoop
set_pingboost_level s level = record s { pingboost_level = level }

unfoldable pub set_target_fps : ServerLoop → ℤ → ServerLoop
set_target_fps s fps = record s { target_fps_ = fps }

unfoldable pub enqueue_input : ServerLoop → Text → ServerLoop
enqueue_input s input = record s {
  input_queue = ThreadSafeQueue.push s.input_queue (input ++ (newline ∷ []));
}

-- The number is the future's.
unfoldable pub enqueue_task : ServerLoop → Task → ServerLoop
enqueue_task s task = record s { task_queue = ThreadSafeQueue.push s.task_queue task }

-- What the engine writes for the map, over 32 zero bytes.
abbrev pub blank_map : Text
blank_map = replicate 32 0

-- `update` is what the engine writes into the status that it gets; the listeners that are called
-- come second.
unfoldable pub update_status :
    Bool → (ServerStatus → ServerStatus) → ServerLoop → ServerLoop × List ℕ
update_status is_time_to_update update s = if not is_time_to_update then (s, []) else (
  record s { status = update (record s.status { current_map = blank_map }) },
  notify s.listeners,
)

-- Linux: the functions that sleep between two frames.
pub data SleepFunc : Type 0 where
  sleep_1ms sleep_timer sleep_1ms_poll sleep_net sleep_1us yield_thread : SleepFunc

abbrev pub level_number : PingBoostLevel → ℕ
level_number not_set = 0
level_number level1 = 1
level_number level2 = 2
level_number level3 = 3
level_number level4 = 4
level_number level5 = 5
level_number target_fps = 6

abbrev pub sleep_by_number : ℕ → SleepFunc
sleep_by_number (suc zero) = sleep_timer
sleep_by_number (suc (suc zero)) = sleep_1ms_poll
sleep_by_number (suc (suc (suc zero))) = sleep_net
sleep_by_number (suc (suc (suc (suc zero)))) = sleep_1us
sleep_by_number (suc (suc (suc (suc (suc zero))))) = yield_thread
sleep_by_number _ = sleep_1ms

-- Windows: `sleep_timer` is the fourth there, and the first two sleep a millisecond.
abbrev pub windows_sleep_by_number : ℕ → SleepFunc
windows_sleep_by_number (suc (suc (suc zero))) = sleep_net
windows_sleep_by_number (suc (suc (suc (suc zero)))) = sleep_timer
windows_sleep_by_number (suc (suc (suc (suc (suc zero))))) = yield_thread
windows_sleep_by_number _ = sleep_1ms

-- The loop of `run`: paced to a frame rate, or with a function that sleeps.
pub data Pace : Type 0 where
  paced : ℕ → Pace
  slept : SleepFunc → Pace

abbrev pub by_level : (ℕ → SleepFunc) → PingBoostLevel → Pace
by_level get_sleep_func level = slept (get_sleep_func (level_number level))

abbrev pub by_fps : ℤ → Pace → Pace
by_fps (pos zero) other = other
by_fps (pos (suc fps)) other = paced (suc fps)
by_fps (negsuc n) other = other

-- Which loop `run` takes, with the functions of the platform.
unfoldable pub run_pace : (ℕ → SleepFunc) → ServerLoop → Pace
run_pace get_sleep_func s = elim s.pingboost_level [
  | target_fps ↦ by_fps s.target_fps_ (by_level get_sleep_func target_fps)
  | level ↦ by_level get_sleep_func level
]

-- What the loop's thread does next. `taking_task` and `taking_input` stand between the test of a
-- queue and its `pop`, and `blocked` for a `pop` that waits.
pub data Phase : Type 0 where
  at_frame at_tasks taking_task at_input taking_input stopped blocked : Phase

-- The loop, with the futures that were fulfilled and the texts that the engine was given.
pub record Loop : Type 0 where
  pub server : ServerLoop
  pub phase : Phase
  pub fulfilled : List Task
  pub received : List Text

abbrev pub loop_thread : ℕ
loop_thread = 0

-- `process_tasks`, behind its test.
unfoldable pub take_task : Loop → Loop
take_task l =
    let (task, q) = pop l.server.task_queue loop_thread in
    let l' = record l { server = record l.server { task_queue = q } } in
    elim task [
      | none ↦ record l' { phase = blocked }
      | some t ↦ record l' { phase = at_input; fulfilled = l.fulfilled ++ (t ∷ []) }
    ]

-- `process_input`, behind its test.
unfoldable pub take_input : Loop → Loop
take_input l =
    let (input, q) = pop l.server.input_queue loop_thread in
    let l' = record l { server = record l.server { input_queue = q } } in
    elim input [
      | none ↦ record l' { phase = blocked }
      | some text ↦ record l' { phase = at_frame; received = l.received ++ (text ∷ []) }
    ]

-- One step of the loop's thread; `goes_on` is the answer of `run_frame`.
unfoldable pub advance : Phase → Bool → Loop → Loop
unfolding take_task take_input
advance at_frame goes_on l = record l { phase = if goes_on then at_tasks else stopped }
advance at_tasks goes_on l = record l {
  phase = if empty l.server.task_queue then at_input else taking_task;
}
advance taking_task goes_on l = take_task l
advance at_input goes_on l = record l {
  phase = if empty l.server.input_queue then at_frame else taking_input;
}
advance taking_input goes_on l = take_input l
advance stopped goes_on l = l
advance blocked goes_on l = l

-- A step of some thread: the loop's, or one that enqueues.
pub data Event : Type 0 where
  runs : Bool → Event
  enters : Text → Event
  asks : Task → Event

unfoldable pub step : Loop → Event → Loop
unfolding advance enqueue_input enqueue_task
step l (runs goes_on) = advance l.phase goes_on l
step l (enters input) = record l { server = enqueue_input l.server input }
step l (asks task) = record l { server = enqueue_task l.server task }

unfoldable pub run : Loop → List Event → Loop
unfolding step
run l [] = l
run l (event ∷ events) = run (step l event) events
