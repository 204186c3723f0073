-- ===== src/ServerLoop/Sleep/Tests.antt =====
-- Two frames at several levels.
use rehlds_m.Base.{◌≡◌, refl, true, none, some, List, [], ◌∷◌, replicate}
use rehlds_m.Base.Int.{pos, negsuc}
use rehlds_m.ServerLoop.{Loop, PingBoostLevel, level1, level3, level4, target_fps, at_frame}
use rehlds_m.ServerLoop.Pacing.{Frame}
use rehlds_m.ServerLoop.Pacing.Example.{whole_numbers}
use rehlds_m.ServerLoop.Sleep.{Host, on_linux, on_windows, calls, run_whole}
use rehlds_m.ServerLoop.Sleep.Outcome.{Outcome}
use rehlds_m.ServerLoop.Sleep.Whole.{run_whole-outcome}

-- The resolution of 1 cannot be set.
abbrev host : Host
host = record {
  net_sleep_timeout = some 77;
  sets_handler = true;
  timer_resolution_status = λ resolution. negsuc 4;
}

abbrev loop_at_level : PingBoostLevel → Loop
loop_at_level level = record {
  server = record {
    pingboost_level = level;
    target_fps_ = pos 100;
    status = record { fps = 0; num_players = 0; max_players = 0; current_map = [] };
    task_queue = record { queue = 3 ∷ []; sleepers = [] };
    input_queue = record { queue = (b'a' ∷ []) ∷ (b'b' ∷ []) ∷ []; sleepers = [] };
    listeners = record { listeners = (0, 4) ∷ []; next_handle = 1 };
  };
  phase = at_frame;
  fulfilled = [];
  received = [];
}

abbrev frame : Frame
frame = record { measured = λ s. s; is_time = true; update = λ status. status }

abbrev frames : List Frame
frames = frame ∷ frame ∷ []

run_whole-outcome_example : Outcome whole_numbers on_linux host frames (loop_at_level level1)
run_whole-outcome_example =
    run_whole-outcome whole_numbers on_linux host frames (loop_at_level level1) refl

abbrev after_two : Loop
after_two = record {
  server = record {
    pingboost_level = level3;
    target_fps_ = pos 100;
    status = record { fps = 0; num_players = 0; max_players = 0; current_map = replicate 32 0 };
    task_queue = record { queue = []; sleepers = [] };
    input_queue = record { queue = []; sleepers = [] };
    listeners = record { listeners = (0, 4) ∷ []; next_handle = 1 };
  };
  phase = at_frame;
  fulfilled = 3 ∷ [];
  received = (b'a' ∷ []) ∷ (b'b' ∷ []) ∷ [];
}

-- The third level calls the function of the engine, and Windows updates the status in each frame.
level3_test :
    run_whole whole_numbers on_windows host frames (loop_at_level level3)
    ≡ some (record { loop = after_two; requests = calls 77 ∷ calls 77 ∷ []; notified = 4 ∷ 4 ∷ [] })
unfolding run_whole rehlds_m.ThreadSafeQueue.empty rehlds_m.ThreadSafeQueue.pop
    rehlds_m.Observable.notify
level3_test = refl

-- Windows refuses the resolution that the fourth level and a rate need.
level4_test : run_whole whole_numbers on_windows host frames (loop_at_level level4) ≡ none
unfolding run_whole
level4_test = refl

rate_test : run_whole whole_numbers on_windows host frames (loop_at_level target_fps) ≡ none
unfolding run_whole
rate_test = refl
