-- ===== src/ServerLoop/Sleep.antt =====
-- The server_loop.cpp files of libs/model/src/model/linux and libs/model/src/model/windows: the
-- functions that sleep between two frames, what is made ready for them, and the whole
-- `ServerLoop::run`; with libs/util/src/util/windows/system/ntdll.cpp. What the system and the engine
-- answer is a parameter. A sleep is what is asked of the system; how Linux waits for the signal of
-- its timer is in Timer.
pub mod Requests
pub mod Outcome
pub mod Whole
mod Tests
use rehlds_m.Base.{
  ℕ, zero, suc, ◌==◌, Bool, true, false, if◌then◌else◌, Option, none, some, List, [], ◌∷◌, ◌++◌,
  map,
}
use rehlds_m.Base.Int.{ℤ, pos, negsuc, ◌/ℤ◌}
use rehlds_m.ServerLoop.{
  SleepFunc, sleep_1ms, sleep_timer, sleep_1ms_poll, sleep_net, sleep_1us, yield_thread,
  level_number, sleep_by_number, windows_sleep_by_number, Pace, paced, slept, run_pace, Loop,
  update_status,
}
use rehlds_m.ServerLoop.Pacing.{
  Double, Platform, Frame, linux, windows, process_tasks, process_input, run_paced,
}

-- What a thread asks of the system: to sleep for nanoseconds, to poll nothing for milliseconds, to
-- wait for a timer of microseconds, a call of the function at an address, a delay as NtDelayExecution
-- takes it, in negative tenths of a microsecond, or to let others run.
pub data Request : Type 0 where
  sleeps_for polls waits_for_timer calls : ℕ → Request
  delays : ℤ → Request
  yields : Request

pub data System : Type 0 where
  on_linux on_windows : System

abbrev pub platform_of : System → Platform
platform_of on_linux = linux
platform_of on_windows = windows

abbrev pub sleep_func_of : System → ℕ → SleepFunc
sleep_func_of on_linux = sleep_by_number
sleep_func_of on_windows = windows_sleep_by_number

-- The answers: the address of NET_Sleep_Timeout in the engine, whether a handler for SIGALRM can be
-- set, and the status of setting a timer resolution.
pub record Host : Type 0 where
  pub net_sleep_timeout : Option ℕ
  pub sets_handler : Bool
  pub timer_resolution_status : ℕ → ℤ

abbrev pub is_success : ℤ → Bool
is_success (pos zero) = true
is_success (pos (suc n)) = false
is_success (negsuc n) = false

-- Whether `set_timer_resolution_or_abort` returns, where setting a resolution has a status.
abbrev pub set_timer_resolution_or_abort : Host → ℕ → Bool
set_timer_resolution_or_abort host resolution = is_success (host.timer_resolution_status resolution)

-- What `get_sleep_func` does besides its choice: the outer option is the end of the program, the
-- inner one the static variable `sleep_thread_net`.
unfoldable pub prepare_linux : Host → ℕ → Option (Option ℕ)
prepare_linux host pingboost =
    if pingboost == 1
    then (if host.sets_handler then some none else none)
    else if pingboost == 3
    then some host.net_sleep_timeout
    else some none

unfoldable pub prepare_windows : Host → ℕ → Option (Option ℕ)
prepare_windows host pingboost =
    if pingboost == 3
    then some host.net_sleep_timeout
    else if pingboost == 4
    then (if set_timer_resolution_or_abort host 1 then some none else none)
    else some none

abbrev pub prepare : System → Host → ℕ → Option (Option ℕ)
prepare on_linux = prepare_linux
prepare on_windows = prepare_windows

abbrev pub net_request : Option ℕ → Request
net_request none = sleeps_for 1_000_000
net_request (some address) = calls address

-- The body of each function, with `sleep_thread_net`.
unfoldable pub linux_request : Option ℕ → SleepFunc → Request
linux_request net sleep_1ms = sleeps_for 1_000_000
linux_request net sleep_timer = waits_for_timer 1_000
linux_request net sleep_1ms_poll = polls 1
linux_request net sleep_net = net_request net
linux_request net sleep_1us = sleeps_for 1_000
linux_request net yield_thread = yields

-- Windows has neither `sleep_1ms_poll` nor `sleep_1us`, which are never chosen there.
unfoldable pub windows_request : Option ℕ → SleepFunc → Request
windows_request net sleep_1ms = sleeps_for 1_000_000
windows_request net sleep_timer = delays (negsuc 0)
windows_request net sleep_1ms_poll = sleeps_for 1_000_000
windows_request net sleep_net = net_request net
windows_request net sleep_1us = sleeps_for 1_000_000
windows_request net yield_thread = yields

abbrev pub request_of : System → Option ℕ → SleepFunc → Request
request_of on_linux = linux_request
request_of on_windows = windows_request

-- The sleep of a frame at a target frame rate, of nanoseconds.
unfoldable pub paced_request : System → ℤ → Request
unfolding ◌/ℤ◌
paced_request on_linux (pos n) = sleeps_for n
paced_request on_linux (negsuc n) = sleeps_for 0
paced_request on_windows sleep = delays (sleep /ℤ negsuc 99)

-- The loop, the sleeps that were asked for, and the listeners that were called.
pub record Ran : Type 0 where
  pub loop : Loop
  pub requests : List Request
  pub notified : List ℕ

abbrev pub begun : Loop → Ran
begun l = record { loop = l; requests = []; notified = [] }

-- Only the loop of Windows updates the status.
unfoldable pub slept_status : System → Frame → Ran → Ran
unfolding update_status
slept_status on_linux frame r = r
slept_status on_windows frame r =
    let (server, listeners) = update_status frame.is_time frame.update r.loop.server in
    record r { loop = record r.loop { server = server }; notified = r.notified ++ listeners }

-- The body of the loop with a function that sleeps.
unfoldable pub slept_frame : System → Request → Frame → Ran → Ran
unfolding slept_status process_tasks process_input
slept_frame system request frame r = slept_status system frame (record r {
  loop = process_input (process_tasks r.loop);
  requests = r.requests ++ (request ∷ []);
})

unfoldable pub slept_frames : System → Request → List Frame → Ran → Ran
unfolding slept_frame
slept_frames system request [] r = r
slept_frames system request (frame ∷ frames) r =
    slept_frames system request frames (slept_frame system request frame r)

-- Whether the loop at a target frame rate begins.
abbrev pub prepares_pace : System → Host → Bool
prepares_pace on_linux host = true
prepares_pace on_windows host = set_timer_resolution_or_abort host 1

abbrev pub run_at_rate : Double → System → Host → ℤ → List Frame → Loop → Option Ran
run_at_rate d system host fps frames l =
    let p = run_paced d (platform_of system) fps frames l in
    if prepares_pace system host
    then some (record {
      loop = p.loop;
      requests = map (paced_request system) p.sleeps;
      notified = p.notified;
    })
    else none

abbrev pub run_with_sleep : System → SleepFunc → List Frame → Loop → Option (Option ℕ) → Option Ran
run_with_sleep system sleep frames l none = none
run_with_sleep system sleep frames l (some net) =
    some (slept_frames system (request_of system net sleep) frames (begun l))

-- `run`, over the frames in which `run_frame` goes on; `none` is the end of the program.
unfoldable pub run_whole : Double → System → Host → List Frame → Loop → Option Ran
unfolding run_pace run_paced paced_request prepare_linux prepare_windows linux_request
    windows_request slept_frames
run_whole d system host frames l = elim (run_pace (sleep_func_of system) l.server) [
  | paced fps ↦ run_at_rate d system host (pos fps) frames l
  | slept sleep ↦
      run_with_sleep system sleep frames l
        (prepare system host (level_number l.server.pingboost_level))
]
