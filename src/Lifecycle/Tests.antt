-- ===== src/Lifecycle/Tests.antt =====
-- A callback that registers another.
use rehlds_m.Base.{ℕ, ◌≡◌, refl, none, some, List, [], ◌∷◌}
use rehlds_m.Lifecycle.{run_callbacks}

-- Each callback registers the number 9.
abbrev nine : ℕ → List ℕ
nine callback = 9 ∷ []

run_callbacks_test : run_callbacks nine 3 (some (1 ∷ 2 ∷ [])) ≡ none
unfolding run_callbacks
run_callbacks_test = refl
