-- ===== src/Lifecycle/Exit.antt =====
-- The order in which the callbacks run, and callbacks that register others.
use mathlib.Core.List.{reverse, reverse-cons}
use rehlds_m.Base.{
  ℕ, zero, suc, ◌≤◌, ◌≡◌, refl, sym, ap, ◌∙◌, true, none, some, List, [], ◌∷◌, ◌++◌, append_assoc,
  length, length-reverse, arith,
}
use rehlds_m.Lifecycle.{at_exit, at_exit_each, and_log, popped, run_stack, run_callbacks}

at_exit_each-reverse :
    (callbacks rest : List ℕ)
    → at_exit_each true (some callbacks) rest ≡ some (reverse rest ++ callbacks)
unfolding at_exit_each at_exit
at_exit_each-reverse callbacks [] = refl
at_exit_each-reverse callbacks (callback ∷ rest) =
    at_exit_each-reverse (callback ∷ callbacks) rest
    ∙ ap some (
        sym (
          ap (λ q. q ++ callbacks) (reverse-cons callback rest)
          ∙ append_assoc (reverse rest) (callback ∷ []) callbacks))

module _ (registers : ℕ → List ℕ) where
  run_stack-plain :
      (fuel : ℕ) (callbacks : List ℕ)
      → ((callback : ℕ) → registers callback ≡ [])
      → length callbacks ≤ fuel
      → run_stack registers fuel callbacks ≡ some callbacks
  unfolding run_stack at_exit_each
  run_stack-plain fuel [] h e = refl
  run_stack-plain zero (callback ∷ callbacks) h e = absurd (omega arith)
  run_stack-plain (suc fuel) (callback ∷ callbacks) h e =
      ap
        (λ q.
          and_log callback
            (run_stack registers fuel (popped (at_exit_each true (some (callback ∷ callbacks)) q))))
        (h callback)
      ∙ ap (and_log callback) (run_stack-plain fuel callbacks h (omega (arith, e)))

  -- Callbacks that register nothing run once each, the last registered one first, and the loop
  -- then ends: as many rounds as there are callbacks are enough.
  pub run_callbacks-at_exit_each :
      (callbacks : List ℕ) (fuel : ℕ)
      → ((callback : ℕ) → registers callback ≡ [])
      → length callbacks ≤ fuel
      → run_callbacks registers fuel (at_exit_each true none callbacks) ≡ some (reverse callbacks)
  unfolding run_callbacks at_exit_each at_exit
  run_callbacks-at_exit_each [] fuel h e = refl
  run_callbacks-at_exit_each (callback ∷ rest) fuel h e =
      ap (run_callbacks registers fuel) (at_exit_each-reverse (callback ∷ []) rest)
      ∙ ap (run_stack registers fuel) (sym (reverse-cons callback rest))
      ∙ run_stack-plain fuel (reverse (callback ∷ rest)) h
          (omega (arith, e, length-reverse (callback ∷ rest)))

  -- A callback that registers another one when it runs is never taken off: its registration is
  -- popped in its place, it runs again, and no number of rounds is enough.
  pub run_callbacks-registers :
      (callback other : ℕ) (callbacks : List ℕ) (fuel : ℕ)
      → registers callback ≡ other ∷ []
      → run_callbacks registers fuel (some (callback ∷ callbacks)) ≡ none
  unfolding run_callbacks run_stack at_exit_each at_exit
  run_callbacks-registers callback other callbacks zero h = refl
  run_callbacks-registers callback other callbacks (suc fuel) h =
      ap
        (λ q.
          and_log callback
            (run_stack registers fuel (popped (at_exit_each true (some (callback ∷ callbacks)) q))))
        h
      ∙ ap (and_log callback) (run_callbacks-registers callback other callbacks fuel h)
