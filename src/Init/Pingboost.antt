-- ===== src/Init/Pingboost.antt =====
-- The loop that the arguments choose.
use rehlds_m.Base.{ℕ, zero, suc, ◌≡◌, refl, ap, if◌then◌else◌, min, Text, arith}
use rehlds_m.Base.Int.{ℤ, pos, negsuc}
use rehlds_m.ServerLoop.{
  ServerLoop, SleepFunc, Pace, paced, slept, run_pace, set_target_fps, set_pingboost_level,
  target_fps,
}
use rehlds_m.Init.{
  value_or, is_positive, clamp_level, targetfps_arg, pingboost_arg, get_argument_option_as,
  init_server_loop,
}

-- The level, as a number from 0 to 5.
abbrev pub clamped : ℤ → ℕ
clamped (negsuc n) = 0
clamped (pos n) = min n 5

-- What the arguments ask for.
abbrev pub pace_for : (ℕ → SleepFunc) → ℤ → ℤ → Pace
pace_for get_sleep_func (pos (suc fps)) pingboost = paced (suc fps)
pace_for get_sleep_func (pos zero) pingboost = slept (get_sleep_func (clamped pingboost))
pace_for get_sleep_func (negsuc n) pingboost = slept (get_sleep_func (clamped pingboost))

run_pace-clamp_level :
    (get_sleep_func : ℕ → SleepFunc) (s : ServerLoop) (z : ℤ)
    → run_pace get_sleep_func (set_pingboost_level s (clamp_level z))
      ≡ slept (get_sleep_func (clamped z))
unfolding run_pace set_pingboost_level
run_pace-clamp_level get_sleep_func s (negsuc n) = refl
run_pace-clamp_level get_sleep_func s (pos zero) = refl
run_pace-clamp_level get_sleep_func s (pos (suc zero)) = refl
run_pace-clamp_level get_sleep_func s (pos (suc (suc zero))) = refl
run_pace-clamp_level get_sleep_func s (pos (suc (suc (suc zero)))) = refl
run_pace-clamp_level get_sleep_func s (pos (suc (suc (suc (suc zero))))) = refl
run_pace-clamp_level get_sleep_func s (pos (suc (suc (suc (suc (suc n)))))) =
    let e : 5 ≡ min (suc (suc (suc (suc (suc n))))) 5 = omega arith in
    ap (λ m. slept (get_sleep_func m)) e

chosen :
    (get_sleep_func : ℕ → SleepFunc) (s : ServerLoop) (fps pingboost : ℤ)
    → run_pace get_sleep_func (
        if is_positive fps
        then set_pingboost_level (set_target_fps s fps) target_fps
        else set_pingboost_level s (clamp_level pingboost))
      ≡ pace_for get_sleep_func fps pingboost
unfolding run_pace set_pingboost_level set_target_fps
chosen get_sleep_func s (pos zero) pingboost = run_pace-clamp_level get_sleep_func s pingboost
chosen get_sleep_func s (pos (suc fps)) pingboost = refl
chosen get_sleep_func s (negsuc n) pingboost = run_pace-clamp_level get_sleep_func s pingboost

-- On each platform, and whatever the loop was set to before: the arguments make `run` take the loop
-- that is paced to the target frame rate, where one above 0 is given, and otherwise the loop with
-- the sleeping function of the pingboost value, limited to the range from 0 to 5. A value that is
-- missing or no number counts as 0.
pub run_pace-init_server_loop :
    (get_sleep_func : ℕ → SleepFunc) (args : Text) (s : ServerLoop)
    → run_pace get_sleep_func (init_server_loop args s)
      ≡ pace_for get_sleep_func
          (value_or (get_argument_option_as args targetfps_arg) (pos 0))
          (value_or (get_argument_option_as args pingboost_arg) (pos 0))
unfolding init_server_loop
run_pace-init_server_loop get_sleep_func args s =
    chosen get_sleep_func s (value_or (get_argument_option_as args targetfps_arg) (pos 0))
      (value_or (get_argument_option_as args pingboost_arg) (pos 0))
