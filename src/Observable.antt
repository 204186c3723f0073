-- ===== src/Observable.antt =====
-- libs/util/include/util/observable.hpp: `Util::Observable`, the listeners of an event in the order
-- of their registration. A handle, an iterator of a `std::list`, is a number that is not used
-- again; taking off a listener by a handle that was taken off before, which the standard leaves
-- undefined, does nothing here.
pub mod Listeners
mod Tests
use rehlds_m.Base.{ℕ, suc, ◌+◌, if◌then◌else◌, ◌==◌, List, [], ◌∷◌, ◌++◌}

abbrev pub Handle : Type 0
Handle = ℕ

pub record Observable {ℓ} (Callback : Type ℓ) : Type ℓ where
  pub listeners : List (Handle × Callback)
  pub next_handle : Handle

module _ {ℓ} {Callback : Type ℓ} where
  unfoldable pub append_listener : Observable Callback → Callback → Handle × Observable Callback
  append_listener o callback = (
    o.next_handle,
    record {
      listeners = o.listeners ++ ((o.next_handle, callback) ∷ []);
      next_handle = o.next_handle + 1;
    },
  )

  unfoldable pub erase : List (Handle × Callback) → Handle → List (Handle × Callback)
  erase [] handle = []
  erase ((h, callback) ∷ rest) handle =
      if h == handle then rest else (h, callback) ∷ erase rest handle

  unfoldable pub remove_listener : Observable Callback → Handle → Observable Callback
  unfolding erase
  remove_listener o handle = record o { listeners = erase o.listeners handle }

  abbrev pub called : List (Handle × Callback) → List Callback
  called [] = []
  called ((h, callback) ∷ rest) = callback ∷ called rest

  -- The callbacks that are called, in their order.
  unfoldable pub notify : Observable Callback → List Callback
  notify o = called o.listeners
