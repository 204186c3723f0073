-- ===== src/ServerLoop/Timer.antt =====
-- libs/model/src/model/linux/server_loop.cpp: `sleep_timer` of the first level of -pingboost, which
-- waits for a signal of a timer that fires once, and the handler of that signal. The handler can run
-- between any two steps of the loop's thread, in that thread or in another; it is one step. Setting
-- the timer in the handler is taken to succeed: its arguments are constants.
pub mod Wakes
mod Tests
use rehlds_m.Base.{Bool, true, false, if◌then◌else◌, ◌&&◌, not, List, [], ◌∷◌}

-- Where the loop's thread stands in `sleep_timer`: at one of its statements, or outside. At
-- `at_pause` the timer was set and `pause` is not yet called, and `pausing` waits in it.
pub data SleepPhase : Type 0 where
  awake at_clear at_set at_pause pausing at_mark : SleepPhase

-- `set` says that the timer is going to fire.
pub record Timer : Type 0 where
  pub phase : SleepPhase
  pub paused : Bool
  pub set : Bool

abbrev pub initial : Timer
initial = record { phase = awake; paused = false; set = false }

-- `set_timer_real`, with its success.
unfoldable pub set_timer_real : Bool → Timer → Timer
set_timer_real success t = if success then record t { set = true } else t

-- The statements of `sleep_timer`, with the success of setting the timer.
unfoldable pub sleep_timer_step : SleepPhase → Bool → Timer → Timer
unfolding set_timer_real
sleep_timer_step awake success t = record t { phase = at_clear }
sleep_timer_step at_clear success t = record t { phase = at_set; paused = false }
sleep_timer_step at_set success t = record (set_timer_real success t) {
  phase = if success then at_pause else at_mark;
}
sleep_timer_step at_pause success t = record t { phase = pausing }
sleep_timer_step pausing success t = t
sleep_timer_step at_mark success t = record t { phase = awake; paused = true }

-- `pause` returns when the handler has run in its thread.
abbrev pub woken : Bool → SleepPhase → SleepPhase
woken own awake = awake
woken own at_clear = at_clear
woken own at_set = at_set
woken own at_pause = at_pause
woken own pausing = if own then at_mark else pausing
woken own at_mark = at_mark

-- `sigalrm_handler`, in the loop's own thread or in another: the timer that fired is off, and is set
-- again if the loop is not marked as paused.
unfoldable pub sigalrm_handler : Bool → Timer → Timer
unfolding set_timer_real
sigalrm_handler own t =
    let fired = record t { phase = woken own t.phase; set = false } in
    if not t.paused then set_timer_real true fired else fired

pub data TimerEvent : Type 0 where
  continues : Bool → TimerEvent
  fires : Bool → TimerEvent

-- A timer that is not set does not fire.
unfoldable pub timer_step : Timer → TimerEvent → Timer
unfolding sleep_timer_step sigalrm_handler
timer_step t (continues success) = sleep_timer_step t.phase success t
timer_step t (fires own) = if t.set then sigalrm_handler own t else t

unfoldable pub timer_run : Timer → List TimerEvent → Timer
unfolding timer_step
timer_run t [] = t
timer_run t (event ∷ events) = timer_run (timer_step t event) events
