-- ===== src/ServerLoop/Pacing/Tests.antt =====
-- Two frames at 100 frames a second on Windows, of which each takes half a millisecond more than it
-- sleeps, with one task and two inputs queued.
use rehlds_m.Base.{◌/◌, ◌^◌, ◌≡◌, refl, true, false, List, [], ◌∷◌, arith}
use rehlds_m.Base.Int.{ℤ, pos, ◌+ℤ◌, ◌≤ℤ◌}
use rehlds_m.ServerLoop.{ServerLoop, Loop, not_set, at_frame}
use rehlds_m.ServerLoop.Pacing.{Frame, windows, run_paced}
use rehlds_m.ServerLoop.Pacing.Bounds.{AreBounded, SleepsLong, run_paced-AreBounded}
use rehlds_m.ServerLoop.Pacing.Example.{whole_numbers, whole_numbers-IsIeee, times}

abbrev fed : ServerLoop
fed = record {
  pingboost_level = not_set;
  target_fps_ = pos 100;
  status = record { fps = 0; num_players = 0; max_players = 0; current_map = [] };
  task_queue = record { queue = 3 ∷ []; sleepers = [] };
  input_queue = record { queue = (b'a' ∷ []) ∷ (b'b' ∷ []) ∷ []; sleepers = [] };
  listeners = record { listeners = (0, 4) ∷ []; next_handle = 1 };
}

abbrev fed_loop : Loop
fed_loop = record { server = fed; phase = at_frame; fulfilled = []; received = [] }

abbrev half_more : ℤ → ℤ
half_more s = s +ℤ pos 500_000

abbrev two_frames : List Frame
two_frames =
    record { measured = half_more; is_time = false; update = λ status. status }
    ∷ record { measured = half_more; is_time = true; update = λ status. status }
    ∷ []

half_more_ge : (s : ℤ) → s ≤ℤ half_more s
unfolding ◌+ℤ◌
half_more_ge s = ground arith

two_frames-SleepsLong : SleepsLong two_frames
two_frames-SleepsLong = (half_more_ge, (half_more_ge, tt))

-- The second frame sleeps less by what the first took.
sleeps_test :
    (run_paced whole_numbers windows (pos 100) two_frames fed_loop).sleeps
    ≡ pos 10_000_000 ∷ pos 9_500_000 ∷ []
unfolding run_paced times ◌+ℤ◌
sleeps_test = refl

run_paced-AreBounded_example :
    let p = run_paced whole_numbers windows (pos 100) two_frames fed_loop in
    (pos 0 ≤ℤ p.ama_duration) × AreBounded windows (pos (10 ^ 9 / 100)) p.sleeps
run_paced-AreBounded_example =
    run_paced-AreBounded whole_numbers whole_numbers-IsIeee windows 100 two_frames fed_loop
      (omega arith) (omega arith) two_frames-SleepsLong
