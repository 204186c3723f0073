-- ===== src/Singleton/Tests.antt =====
-- The holders at concrete calls.
use rehlds_m.Base.{◌≡◌, [], ◌∷◌}
use rehlds_m.Singleton.{
  LifetimePolicy, default_lifetime, reference, aborts, null_reference, fresh, gets, destroys,
  outcomes, outcomes_once,
}
use rehlds_m.Singleton.Lifetime.{outcomes-fresh}

outcomes-fresh_example :
    (outcomes default_lifetime fresh (gets ∷ destroys ∷ gets ∷ gets ∷ [])
      ≡ reference 0 ∷ aborts ∷ [])
    × ((policy : LifetimePolicy)
        → outcomes_once policy fresh (gets ∷ gets ∷ destroys ∷ gets ∷ gets ∷ [])
          ≡ reference 0 ∷ reference 0 ∷ null_reference ∷ [])
outcomes-fresh_example = outcomes-fresh (gets ∷ destroys ∷ gets ∷ gets ∷ [])
