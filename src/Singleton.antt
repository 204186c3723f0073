-- ===== src/Singleton.antt =====
-- libs/util/include/util/singleton.hpp: `Util::SingletonHolder`, without and with threads, over the
-- policies for the lifetime. An object is the number of its construction. The assertions are left
-- out.
pub mod Lifetime
mod Tests
use rehlds_m.Base.{
  ℕ, zero, suc, ◌+◌, Bool, true, false, not, ◌&&◌, if◌then◌else◌, Option, none, some, List, [], ◌∷◌,
}

-- `DefaultLifetime` destroys the object at the exit, and aborts at a dead reference; `NoDestroy`
-- does neither.
pub data LifetimePolicy : Type 0 where
  default_lifetime no_destroy : LifetimePolicy

-- `once` is the flag of `std::call_once`, of the holder with threads; `scheduled` counts the calls
-- of `destroy_singleton` that `at_exit` was given.
pub record Holder : Type 0 where
  pub instance : Option ℕ
  pub destroyed : Bool
  pub once : Bool
  pub scheduled : ℕ
  pub created : ℕ

-- What `get_instance` comes to: a reference, the end of the program, or a null pointer that is
-- dereferenced.
pub data Outcome : Type 0 where
  reference : ℕ → Outcome
  aborts : Outcome
  null_reference : Outcome

abbrev pub fresh : Holder
fresh = record { instance = none; destroyed = false; once = false; scheduled = 0; created = 0 }

abbrev pub dereference : Option ℕ → Outcome
dereference none = null_reference
dereference (some object) = reference object

abbrev pub schedule : LifetimePolicy → ℕ → ℕ
schedule default_lifetime n = n + 1
schedule no_destroy n = n

-- `CreateUnique` and the scheduling.
abbrev pub create : LifetimePolicy → Holder → Holder
create policy h = record h {
  instance = some h.created;
  destroyed = false;
  created = h.created + 1;
  scheduled = schedule policy h.scheduled;
}

abbrev pub is_default : LifetimePolicy → Bool
is_default default_lifetime = true
is_default no_destroy = false

-- The construction, behind the test for a dead reference.
abbrev pub construct : LifetimePolicy → Holder → Outcome × Holder
construct policy h =
    if h.destroyed && is_default policy then (aborts, h) else (reference h.created, create policy h)

unfoldable pub get_instance : LifetimePolicy → Holder → Outcome × Holder
get_instance policy h = elim h.instance [
  | some object ↦ (reference object, h)
  | none ↦ construct policy h
]

unfoldable pub destroy_singleton : Holder → Holder
destroy_singleton h = record h { instance = none; destroyed = true }

-- The holder with threads: the construction is made once.
unfoldable pub get_instance_once : LifetimePolicy → Holder → Outcome × Holder
get_instance_once policy h =
    let (outcome, h') = construct policy h in
    if h.once then (dereference h.instance, h) else (outcome, record h' { once = true })

pub data Call : Type 0 where
  gets : Call
  destroys : Call

abbrev pub is_aborts : Outcome → Bool
is_aborts (reference object) = false
is_aborts aborts = true
is_aborts null_reference = false

abbrev pub is_reference : Outcome → Bool
is_reference (reference object) = true
is_reference aborts = false
is_reference null_reference = false

-- The outcomes of the calls of `get_instance`, up to the end of the program.
unfoldable pub outcomes : LifetimePolicy → Holder → List Call → List Outcome
unfolding get_instance destroy_singleton
outcomes policy h [] = []
outcomes policy h (gets ∷ calls) =
    let (outcome, h') = get_instance policy h in
    let rest = outcomes policy h' calls in outcome ∷ (if is_aborts outcome then [] else rest)
outcomes policy h (destroys ∷ calls) = outcomes policy (destroy_singleton h) calls

-- The same of the holder with threads, up to the end of the program or to a null pointer that is
-- dereferenced.
unfoldable pub outcomes_once : LifetimePolicy → Holder → List Call → List Outcome
unfolding get_instance_once destroy_singleton
outcomes_once policy h [] = []
outcomes_once policy h (gets ∷ calls) =
    let (outcome, h') = get_instance_once policy h in
    let rest = outcomes_once policy h' calls in
    outcome ∷ (if is_reference outcome then rest else [])
outcomes_once policy h (destroys ∷ calls) = outcomes_once policy (destroy_singleton h) calls
