-- ===== src/ServerLoop/Sleep/Whole.antt =====
-- The whole run on each platform: when it gives up, and what it does otherwise.
use rehlds_m.Base.{
  ℕ, zero, suc, ◌≡◌, ◌≢◌, refl, ◌⊎◌, inl, inr, true, false, Bool-cases, none, List, Text, arith,
}
use rehlds_m.Base.Int.{ℤ, pos, negsuc, ◌≤ℤ◌}
use rehlds_m.ThreadSafeQueue.{ThreadSafeQueue}
use rehlds_m.Observable.{Observable}
use rehlds_m.ServerLoop.{
  sleep_1ms, sleep_timer, sleep_1ms_poll, sleep_net, sleep_1us, yield_thread, PingBoostLevel,
  not_set, level1, level2, level3, level4, level5, target_fps, ServerStatus, Task, Loop, Phase,
  at_frame,
}
use rehlds_m.ServerLoop.Pacing.{Double, Frame}
use rehlds_m.ServerLoop.Sleep.{System, on_linux, on_windows, Host, is_success, run_whole}
use rehlds_m.ServerLoop.Sleep.Outcome.{Lacks, Outcome, slept_outcome, paced_outcome}

is_success-cases :
    (z : ℤ) → ((is_success z ≡ true) × (z ≡ pos 0)) ⊎ ((is_success z ≡ false) × (z ≢ pos 0))
is_success-cases (pos zero) = inl (refl, refl)
is_success-cases (pos (suc n)) = inr (refl, λ e. cc)
is_success-cases (negsuc n) = inr (refl, λ e. cc)

module _ (d : Double) (host : Host) (frames : List Frame) (status : ServerStatus)
    (task_queue : ThreadSafeQueue Task) (input_queue : ThreadSafeQueue Text)
    (listeners : Observable ℕ) (fulfilled : List Task) (received : List Text) where
  abbrev loop_with : PingBoostLevel → ℤ → Phase → Loop
  loop_with level fps phase = record {
    server = record {
      pingboost_level = level;
      target_fps_ = fps;
      status = status;
      task_queue = task_queue;
      input_queue = input_queue;
      listeners = listeners;
    };
    phase = phase;
    fulfilled = fulfilled;
    received = received;
  }

  linux_outcome :
      (level : PingBoostLevel) (fps : ℤ) (phase : Phase)
      → phase ≡ at_frame
      → Outcome d on_linux host frames (loop_with level fps phase)
  unfolding run_whole
  linux_outcome not_set fps phase e =
      slept_outcome d host frames (loop_with not_set fps phase) e on_linux sleep_1ms none
        (λ (p, q). cc) refl
  linux_outcome level1 fps phase e = elim (Bool-cases host.sets_handler) [
    | inl s ↦
        slept_outcome d host frames (loop_with level1 fps phase) e on_linux sleep_timer none
          (λ (p, q). cc) (rw s refl)
    | inr s ↦ inl ((refl, s), rw s refl)
  ]
  linux_outcome level2 fps phase e =
      slept_outcome d host frames (loop_with level2 fps phase) e on_linux sleep_1ms_poll none
        (λ (p, q). cc) refl
  linux_outcome level3 fps phase e =
      slept_outcome d host frames (loop_with level3 fps phase) e on_linux sleep_net
        host.net_sleep_timeout (λ (p, q). cc) refl
  linux_outcome level4 fps phase e =
      slept_outcome d host frames (loop_with level4 fps phase) e on_linux sleep_1us none
        (λ (p, q). cc) refl
  linux_outcome level5 fps phase e =
      slept_outcome d host frames (loop_with level5 fps phase) e on_linux yield_thread none
        (λ (p, q). cc) refl
  linux_outcome target_fps (pos zero) phase e =
      slept_outcome d host frames (loop_with target_fps (pos zero) phase) e on_linux sleep_1ms none
        (λ (p, q). cc) refl
  linux_outcome target_fps (negsuc n) phase e =
      slept_outcome d host frames (loop_with target_fps (negsuc n) phase) e on_linux sleep_1ms none
        (λ (p, q). cc) refl
  linux_outcome target_fps (pos (suc n)) phase e =
      paced_outcome d host frames (loop_with target_fps (pos (suc n)) phase) e on_linux
        (pos (suc n)) (refl, omega arith) (λ (p, q). cc) refl

  -- A level that asks for no timer resolution is not refused.
  windows_has :
      (level : PingBoostLevel) (fps : ℤ) (phase : Phase)
      → level ≢ level4
      → level ≢ target_fps
      → Lacks on_windows host (loop_with level fps phase).server
      → ⊥
  windows_has level fps phase n4 nt (inl q, h) = n4 q
  windows_has level fps phase n4 nt (inr (q, le), h) = nt q

  windows_no_rate :
      (fps : ℤ) (phase : Phase)
      → (pos 1 ≤ℤ fps → ⊥)
      → Lacks on_windows host (loop_with target_fps fps phase).server
      → ⊥
  windows_no_rate fps phase low (inl q, h) = cc
  windows_no_rate fps phase low (inr (q, le), h) = low le

  windows_outcome :
      (level : PingBoostLevel) (fps : ℤ) (phase : Phase)
      → phase ≡ at_frame
      → Outcome d on_windows host frames (loop_with level fps phase)
  unfolding run_whole
  windows_outcome not_set fps phase e =
      slept_outcome d host frames (loop_with not_set fps phase) e on_windows sleep_1ms none
        (windows_has not_set fps phase (λ q. cc) (λ q. cc)) refl
  windows_outcome level1 fps phase e =
      slept_outcome d host frames (loop_with level1 fps phase) e on_windows sleep_1ms none
        (windows_has level1 fps phase (λ q. cc) (λ q. cc)) refl
  windows_outcome level2 fps phase e =
      slept_outcome d host frames (loop_with level2 fps phase) e on_windows sleep_1ms none
        (windows_has level2 fps phase (λ q. cc) (λ q. cc)) refl
  windows_outcome level3 fps phase e =
      slept_outcome d host frames (loop_with level3 fps phase) e on_windows sleep_net
        host.net_sleep_timeout (windows_has level3 fps phase (λ q. cc) (λ q. cc)) refl
  windows_outcome level5 fps phase e =
      slept_outcome d host frames (loop_with level5 fps phase) e on_windows yield_thread none
        (windows_has level5 fps phase (λ q. cc) (λ q. cc)) refl
  windows_outcome level4 fps phase e = elim (is_success-cases (host.timer_resolution_status 1)) [
    | inl (s, z) ↦
        slept_outcome d host frames (loop_with level4 fps phase) e on_windows sleep_timer none
          (λ (p, nz). nz z) (rw s refl)
    | inr (s, nz) ↦ inl ((inl refl, nz), rw s refl)
  ]
  windows_outcome target_fps (pos (suc n)) phase e =
      elim (is_success-cases (host.timer_resolution_status 1)) [
        | inl (s, z) ↦
            paced_outcome d host frames (loop_with target_fps (pos (suc n)) phase) e on_windows
              (pos (suc n)) (refl, omega arith) (λ (p, nz). nz z) (rw s refl)
        | inr (s, nz) ↦ inl ((inr (refl, omega arith), nz), rw s refl)
      ]
  windows_outcome target_fps (pos zero) phase e =
      slept_outcome d host frames (loop_with target_fps (pos zero) phase) e on_windows sleep_1ms
        none (windows_no_rate (pos zero) phase (λ le. omega (arith, le))) refl
  windows_outcome target_fps (negsuc n) phase e =
      slept_outcome d host frames (loop_with target_fps (negsuc n) phase) e on_windows sleep_1ms
        none (windows_no_rate (negsuc n) phase (λ le. omega (arith, le))) refl

-- On either system, from the start of a frame and whatever the system and the engine answer, the
-- run gives up before its first frame exactly if its settings need what the system refuses: a handler for the signal at
-- the first level on Linux, and a timer resolution at the fourth level or a target frame rate on
-- Windows. Otherwise it asks for one sleep in each frame, which without a target frame rate is at
-- most a millisecond or the engine's, and leaves the queues as the steps of the loop do, with the first
-- task and the first input of each frame done in their order.
pub run_whole-outcome :
    (d : Double) (system : System) (host : Host) (frames : List Frame) (l : Loop)
    → l.phase ≡ at_frame
    → Outcome d system host frames l
run_whole-outcome d on_linux host frames l e =
    let s = l.server in
    linux_outcome d host frames s.status s.task_queue s.input_queue s.listeners l.fulfilled
      l.received s.pingboost_level s.target_fps_ l.phase e
run_whole-outcome d on_windows host frames l e =
    let s = l.server in
    windows_outcome d host frames s.status s.task_queue s.input_queue s.listeners l.fulfilled
      l.received s.pingboost_level s.target_fps_ l.phase e
