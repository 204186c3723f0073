-- ===== src/ModuleWrapper.antt =====
-- libs/common/include/common/module_wrapper.hpp and libs/common/src/common/module_wrapper.cpp, with
-- the lookups of libs/common/include/common/engine/engine_wrapper.hpp: `Common::ModuleWrapper`, a
-- module that is loaded, and the interfaces that it gave. The system's loader is a parameter: what
-- a call of it gives stands among the arguments, and `symbol` is the function that a handle has
-- under the name CreateInterface, a null handle too.
pub mod Cache
mod Tests
use rehlds_m.Base.{
  ℕ, Bool, true, false, ◌&&◌, if◌then◌else◌, Option, none, some, List, [], ◌∷◌, Text,
}
use rehlds_m.Interface.{CreateInterfaceStatus, succeeded, failed, find, assign}

abbrev pub Handle : Type 0
Handle = ℕ

-- What a factory makes for a name.
abbrev pub Factory : Type 0
Factory = Text → Option ℕ × CreateInterfaceStatus

pub record ModuleWrapper : Type 0 where
  pub handle : Option Handle
  pub interfaces : List (Text × ℕ)

-- The wrapper as it is constructed.
abbrev pub fresh : ModuleWrapper
fresh = record { handle = none; interfaces = [] }

abbrev pub is_loaded : ModuleWrapper → Bool
is_loaded w = elim w.handle [ none ↦ false | some handle ↦ true ]

abbrev pub loaded_as : Option Handle → ModuleWrapper → Bool × ModuleWrapper
loaded_as none w = (false, record w { handle = none })
loaded_as (some handle) w = (true, record w { handle = some handle; interfaces = [] })

unfoldable pub load : Option Handle → ModuleWrapper → Bool × ModuleWrapper
load loaded w = if is_loaded w then (true, w) else loaded_as loaded w

unfoldable pub unload : Bool → ModuleWrapper → ModuleWrapper
unload unloaded w = if is_loaded w && unloaded then record { handle = none; interfaces = [] } else w

-- The pointer, and what the cache then holds.
abbrev pub keep : Bool → Text → Option ℕ × CreateInterfaceStatus → List (Text × ℕ) → List (Text × ℕ)
keep true name (some interface, succeeded) interfaces = assign interfaces name interface
keep true name (some interface, failed) interfaces = interfaces
keep true name (none, status) interfaces = interfaces
keep false name made interfaces = interfaces

abbrev pub made_by : Option Factory → Text → Option ℕ × CreateInterfaceStatus
made_by none name = (none, failed)
made_by (some factory) name = factory name

module _ (symbol : Option Handle → Option Factory) where
  -- The call of the factory, if the name is not in the cache.
  unfoldable pub get_interface : Text → Bool → ModuleWrapper → Option ℕ × ModuleWrapper
  get_interface name cache w =
      let made = made_by (symbol w.handle) name in
      elim (find w.interfaces name) [
        | some interface ↦ (some interface, w)
        | none ↦ (made.0, record w { interfaces = keep cache name made w.interfaces })
      ]

  pub data Call : Type 0 where
    loads : Option Handle → Call
    unloads : Bool → Call
    gets : Text → Bool → Call

  unfoldable pub step : ModuleWrapper → Call → ModuleWrapper
  unfolding load unload get_interface
  step w (loads loaded) = (load loaded w).1
  step w (unloads unloaded) = unload unloaded w
  step w (gets name cache) = (get_interface name cache w).1

  unfoldable pub run : ModuleWrapper → List Call → ModuleWrapper
  unfolding step
  run w [] = w
  run w (call ∷ calls) = run (step w call) calls

-- None is the end of the program.
unfoldable pub load_or_abort : Option Handle → ModuleWrapper → Option ModuleWrapper
unfolding load
load_or_abort loaded w = let (done, w') = load loaded w in if done then some w' else none

unfoldable pub get_interface_or_abort :
    (Option Handle → Option Factory) → Text → Bool → ModuleWrapper → Option (ℕ × ModuleWrapper)
unfolding get_interface
get_interface_or_abort symbol name cache w =
    let (made, w') = get_interface symbol name cache w in
    elim made [ none ↦ none | some interface ↦ some (interface, w') ]
