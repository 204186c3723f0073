-- ===== src/Signal/Tests.antt =====
-- The scope at the concrete system.
use rehlds_m.Base.{◌≡◌, refl, true, false, ◌==◌, [], ◌∷◌}
use rehlds_m.Signal.{
  get_signal_names, create_signal_set, change_signal_mask, try_create_signal_set,
  try_change_signal_mask, block_signals,
}
use rehlds_m.Signal.Scope.{after_scope, member-after_scope}
use rehlds_m.Signal.Example.{Signals, no_signals, working, working_laws}

-- "S, S"
two_names : get_signal_names working (21 ∷ 22 ∷ []) ≡ b'S' ∷ b',' ∷ b' ' ∷ b'S' ∷ []
unfolding get_signal_names
two_names = refl

abbrev blocks_21 : Signals
blocks_21 s = 21 == s

-- The signal was blocked before the scope, and is not behind it.
member-after_scope_example :
    (after_scope working true no_signals (21 ∷ 22 ∷ []) blocks_21) 21 ≡ false
unfolding block_signals try_create_signal_set try_change_signal_mask create_signal_set
    change_signal_mask
member-after_scope_example =
    member-after_scope working working_laws true no_signals (21 ∷ 22 ∷ []) blocks_21 21 refl
      (λ set mask. refl)
