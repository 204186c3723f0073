-- ===== src/ThreadSafeQueue/Tests.antt =====
-- The theorems on the queue at a concrete interleaving.
use rehlds_m.Base.{ℕ, ◌≡◌, refl, true, List, [], ◌∷◌, ◌++◌}
use rehlds_m.ThreadSafeQueue.{ThreadSafeQueue, elem, Call, pushes, pops, wakes, run}
use rehlds_m.ThreadSafeQueue.Steps.{run-pushed, run-pop}

abbrev waiting : ThreadSafeQueue ℕ
waiting = record { queue = []; sleepers = 7 ∷ [] }

-- The sleeper 7 is woken behind two pushes and a pop of another thread.
abbrev calls : List (Call ℕ)
calls = pushes 1 ∷ pushes 2 ∷ pops 8 ∷ wakes 7 ∷ pushes 3 ∷ []

run-pushed_example : (run waiting calls).0 ++ (run waiting calls).1.queue ≡ 1 ∷ 2 ∷ 3 ∷ []
run-pushed_example = run-pushed waiting calls

run-pop_example : elem 7 (run waiting (pushes 1 ∷ pushes 2 ∷ [])).1.sleepers ≡ true
run-pop_example = run-pop waiting 7 (pushes 1 ∷ pushes 2 ∷ []) refl refl
