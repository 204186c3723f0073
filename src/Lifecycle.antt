-- ===== src/Lifecycle.antt =====
-- libs/util/src/util/lifecycle.cpp: `Util::at_exit`, the callbacks that run when the program ends.
-- A callback is its number; what it registers when it runs is a parameter. The mutex is left out:
-- each call is one step.
pub mod Exit
mod Tests
use rehlds_m.Base.{
  ℕ, zero, suc, Bool, true, false, if◌then◌else◌, Option, none, some, List, [], ◌∷◌, drop,
}

-- The stack, its top first, or the null pointer.
abbrev pub Callbacks : Type 0
Callbacks = Option (List ℕ)

-- `hooked` is the success of `std::atexit` and `std::at_quick_exit`.
unfoldable pub at_exit : Bool → Callbacks → ℕ → Bool × Callbacks
at_exit hooked none callback = if hooked then (true, some (callback ∷ [])) else (false, none)
at_exit hooked (some callbacks) callback = (true, some (callback ∷ callbacks))

unfoldable pub at_exit_each : Bool → Callbacks → List ℕ → Callbacks
unfolding at_exit
at_exit_each hooked callbacks [] = callbacks
at_exit_each hooked callbacks (callback ∷ rest) =
    at_exit_each hooked (at_exit hooked callbacks callback).1 rest

abbrev pub and_log : ℕ → Option (List ℕ) → Option (List ℕ)
and_log callback none = none
and_log callback (some log) = some (callback ∷ log)

abbrev pub popped : Callbacks → List ℕ
popped none = []
popped (some callbacks) = drop 1 callbacks

module _ (registers : ℕ → List ℕ) where
  -- The loop, with the callbacks in the order in which they ran; `none` is a loop that goes on.
  unfoldable pub run_stack : ℕ → List ℕ → Option (List ℕ)
  unfolding at_exit_each
  run_stack fuel [] = some []
  run_stack zero (callback ∷ callbacks) = none
  run_stack (suc fuel) (callback ∷ callbacks) = and_log callback (
      run_stack fuel
        (popped (at_exit_each true (some (callback ∷ callbacks)) (registers callback))))

  unfoldable pub run_callbacks : ℕ → Callbacks → Option (List ℕ)
  unfolding run_stack
  run_callbacks fuel none = some []
  run_callbacks fuel (some callbacks) = run_stack fuel callbacks
