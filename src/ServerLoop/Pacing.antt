-- ===== src/ServerLoop/Pacing.antt =====
-- libs/model/src/model/server_loop.cpp: the loop at a target frame rate, `ServerLoop::run` with a
-- rate, and the clock of the status. Durations are whole nanoseconds. What the clocks tell is an
-- argument: of a frame, the time from before its sleep to its end, given how long it is to sleep.
-- The floating point numbers of the average are a parameter, with the operations that are used.
pub mod Bounds
pub mod Steps
pub mod Example
mod Tests
use rehlds_m.Base.{ℕ, zero, suc, Bool, true, false, if◌then◌else◌, List, [], ◌∷◌, ◌++◌}
use rehlds_m.Base.Int.{ℤ, pos, negsuc, ◌-ℤ◌, ◌/ℤ◌, max_ℤ, abs}
use rehlds_m.ThreadSafeQueue.{empty}
use rehlds_m.ServerLoop.{
  ServerStatus, Loop, at_input, at_frame, take_task, take_input, update_status,
}

pub record Double : Type 1 where
  pub Carrier : Type 0
  pub of_int : ℤ → Carrier
  -- The conversion to an integer, which drops the fraction.
  pub truncate : Carrier → ℤ
  pub add : Carrier → Carrier → Carrier
  pub sub : Carrier → Carrier → Carrier
  pub mul : Carrier → Carrier → Carrier
  pub exp : Carrier → Carrier
  -- The literals 0.1 and 1.015.
  pub slow_smoothing_coefficient : Carrier
  pub fps_increase_factor : Carrier

-- How a platform sleeps: the shortest time that is asked for, and whether the loop updates the
-- status.
pub record Platform : Type 0 where
  pub least_sleep : ℕ
  pub updates_status : Bool

abbrev pub linux : Platform
linux = record { least_sleep = 1; updates_status = false }

abbrev pub windows : Platform
windows = record { least_sleep = 100; updates_status = true }

-- What happens in a frame: the time that the clocks tell of it, whether it is time to update the
-- status, and what the engine then writes.
pub record Frame : Type 0 where
  pub measured : ℤ → ℤ
  pub is_time : Bool
  pub update : ServerStatus → ServerStatus

-- The loop, its average, the sleeps that were asked for, and the listeners that were called.
pub record Paced : Type 0 where
  pub loop : Loop
  pub ama_duration : ℤ
  pub sleeps : List ℤ
  pub notified : List ℕ

abbrev pub started : Loop → Paced
started l = record { loop = l; ama_duration = pos 0; sleeps = []; notified = [] }

unfoldable pub process_tasks : Loop → Loop
unfolding take_task
process_tasks l = if empty l.server.task_queue then record l { phase = at_input } else take_task l

unfoldable pub process_input : Loop → Loop
unfolding take_input
process_input l = if empty l.server.input_queue then record l { phase = at_frame } else take_input l

-- Only the loop of Windows updates the status here.
unfoldable pub frame_status : Platform → Frame → Paced → Paced
unfolding update_status
frame_status platform frame p =
    if platform.updates_status
    then (let (server, listeners) = update_status frame.is_time frame.update p.loop.server in
        record p { loop = record p.loop { server = server }; notified = p.notified ++ listeners })
    else p

module _ (d : Double) where
  open d use {
    Carrier, of_int, truncate, add, sub, mul, exp, slow_smoothing_coefficient, fps_increase_factor,
  }

  abbrev pub fast_smoothing_coefficient : Carrier
  fast_smoothing_coefficient = of_int (pos 1)

  abbrev pub is_zero : ℤ → Bool
  is_zero (pos zero) = true
  is_zero (pos (suc n)) = false
  is_zero (negsuc n) = false

  -- The quotient is one of integers.
  unfoldable pub calculate_adaptive_smoothing_coefficient : ℤ → ℤ → Carrier
  unfolding ◌-ℤ◌ ◌/ℤ◌
  calculate_adaptive_smoothing_coefficient duration ama_duration =
      if is_zero ama_duration
      then fast_smoothing_coefficient
      else add fast_smoothing_coefficient (
          mul (sub slow_smoothing_coefficient fast_smoothing_coefficient)
            (exp (of_int (pos 0 -ℤ abs ((duration -ℤ ama_duration) /ℤ ama_duration)))))

  -- The new average.
  unfoldable pub smoothed : ℤ → ℤ → ℤ
  unfolding calculate_adaptive_smoothing_coefficient
  smoothed duration ama_duration =
      let alpha = calculate_adaptive_smoothing_coefficient duration ama_duration in
      truncate
        (add (mul alpha (of_int duration)) (mul (sub (of_int (pos 1)) alpha) (of_int ama_duration)))

  unfoldable pub target_sleep_duration : ℤ → ℤ
  unfolding ◌/ℤ◌
  target_sleep_duration target_fps =
      pos 1_000_000_000 /ℤ truncate (mul (of_int target_fps) fps_increase_factor)

  unfoldable pub sleep_duration : Platform → ℤ → ℤ → ℤ
  unfolding max_ℤ ◌-ℤ◌
  sleep_duration platform target ama_duration =
      max_ℤ (pos platform.least_sleep) (target -ℤ ama_duration)

  -- The body of the loop, with the time that it is to sleep in all.
  unfoldable pub paced_frame : Platform → ℤ → Frame → Paced → Paced
  unfolding frame_status process_tasks process_input sleep_duration smoothed ◌-ℤ◌
  paced_frame platform target frame p =
      let sleep = sleep_duration platform target p.ama_duration in
      let shown = frame_status platform frame p in
      record shown {
        loop = process_input (process_tasks shown.loop);
        ama_duration = smoothed (frame.measured sleep -ℤ sleep) p.ama_duration;
        sleeps = p.sleeps ++ (sleep ∷ []);
      }

  unfoldable pub paced_frames : Platform → ℤ → List Frame → Paced → Paced
  unfolding paced_frame
  paced_frames platform target [] p = p
  paced_frames platform target (frame ∷ frames) p =
      paced_frames platform target frames (paced_frame platform target frame p)

  -- The frames in which `run_frame` goes on, with the rate that the caller gave.
  unfoldable pub run_paced : Platform → ℤ → List Frame → Loop → Paced
  unfolding paced_frames target_sleep_duration
  run_paced platform target_fps frames l =
      paced_frames platform (target_sleep_duration target_fps) frames (started l)
