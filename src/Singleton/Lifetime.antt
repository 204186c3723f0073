-- ===== src/Singleton/Lifetime.antt =====
-- Which object a holder gives.
use rehlds_m.Base.{◌≡◌, refl, ap, true, none, some, List, [], ◌∷◌}
use rehlds_m.Singleton.{
  LifetimePolicy, default_lifetime, no_destroy, Holder, Outcome, reference, aborts, null_reference,
  fresh, get_instance, destroy_singleton, get_instance_once, Call, gets, destroys, outcomes,
  outcomes_once,
}

-- What the calls should come to: one object up to the first destruction, and then the end of the
-- program at the first call.
abbrev pub after_end : List Call → List Outcome
after_end [] = []
after_end (gets ∷ calls) = aborts ∷ []
after_end (destroys ∷ calls) = after_end calls

abbrev pub one_object : List Call → List Outcome
one_object [] = []
one_object (gets ∷ calls) = reference 0 ∷ one_object calls
one_object (destroys ∷ calls) = after_end calls

outcomes-after_end :
    (h : Holder) (calls : List Call)
    → outcomes default_lifetime (record h { instance = none; destroyed = true }) calls
      ≡ after_end calls
unfolding outcomes get_instance destroy_singleton
outcomes-after_end h [] = refl
outcomes-after_end h (gets ∷ calls) = refl
outcomes-after_end h (destroys ∷ calls) = outcomes-after_end h calls

outcomes-one_object :
    (h : Holder) (calls : List Call)
    → outcomes default_lifetime (record h { instance = some 0 }) calls ≡ one_object calls
unfolding outcomes get_instance destroy_singleton
outcomes-one_object h [] = refl
outcomes-one_object h (gets ∷ calls) = ap (λ q. reference 0 ∷ q) (outcomes-one_object h calls)
outcomes-one_object h (destroys ∷ calls) = outcomes-after_end h calls

outcomes-fresh_default :
    (calls : List Call) → outcomes default_lifetime fresh calls ≡ one_object calls
unfolding outcomes get_instance destroy_singleton
outcomes-fresh_default [] = refl
outcomes-fresh_default (gets ∷ calls) =
    ap (λ q. reference 0 ∷ q)
      (outcomes-one_object (record fresh { created = 1; scheduled = 1 }) calls)
outcomes-fresh_default (destroys ∷ calls) = outcomes-after_end fresh calls

-- What the calls come to with threads.
abbrev pub null_end : List Call → List Outcome
null_end [] = []
null_end (gets ∷ calls) = null_reference ∷ []
null_end (destroys ∷ calls) = null_end calls

abbrev pub one_object_once : List Call → List Outcome
one_object_once [] = []
one_object_once (gets ∷ calls) = reference 0 ∷ one_object_once calls
one_object_once (destroys ∷ calls) = null_end calls

outcomes_once-null :
    (policy : LifetimePolicy) (h : Holder) (calls : List Call)
    → outcomes_once policy (record h { instance = none; destroyed = true; once = true }) calls
      ≡ null_end calls
unfolding outcomes_once get_instance_once destroy_singleton
outcomes_once-null policy h [] = refl
outcomes_once-null policy h (gets ∷ calls) = refl
outcomes_once-null policy h (destroys ∷ calls) = outcomes_once-null policy h calls

outcomes_once-one_object :
    (policy : LifetimePolicy) (h : Holder) (calls : List Call)
    → outcomes_once policy (record h { instance = some 0; once = true }) calls
      ≡ one_object_once calls
unfolding outcomes_once get_instance_once destroy_singleton
outcomes_once-one_object policy h [] = refl
outcomes_once-one_object policy h (gets ∷ calls) =
    ap (λ q. reference 0 ∷ q) (outcomes_once-one_object policy h calls)
outcomes_once-one_object policy h (destroys ∷ calls) = outcomes_once-null policy h calls

outcomes_once-fresh :
    (policy : LifetimePolicy) (calls : List Call)
    → outcomes_once policy fresh (gets ∷ calls) ≡ reference 0 ∷ one_object_once calls
unfolding outcomes_once get_instance_once destroy_singleton
outcomes_once-fresh default_lifetime calls =
    ap (λ q. reference 0 ∷ q)
      (outcomes_once-one_object default_lifetime (record fresh { created = 1; scheduled = 1 })
        calls)
outcomes_once-fresh no_destroy calls =
    ap (λ q. reference 0 ∷ q)
      (outcomes_once-one_object no_destroy (record fresh { created = 1 }) calls)

-- Every sequence of calls gets one and the same object up to its destruction, whether it was there
-- before or not. Without threads and with the default policy, the first call after that ends the
-- program, so that no second object is ever made. With threads, with each policy, and if a call of
-- `get_instance` comes first, that call dereferences a null pointer: the policy's handling of a dead
-- reference is never reached.
pub outcomes-fresh :
    (calls : List Call)
    → (outcomes default_lifetime fresh calls ≡ one_object calls)
      × ((policy : LifetimePolicy)
          → outcomes_once policy fresh (gets ∷ calls) ≡ reference 0 ∷ one_object_once calls)
outcomes-fresh calls = (outcomes-fresh_default calls, λ policy. outcomes_once-fresh policy calls)
