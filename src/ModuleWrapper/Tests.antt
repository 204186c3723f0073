-- ===== src/ModuleWrapper/Tests.antt =====
-- A module that is unloaded, and another one loaded in its place.
use rehlds_m.Base.{◌≡◌, true, Option, none, some, List, [], ◌∷◌, Text}
use rehlds_m.Interface.{succeeded}
use rehlds_m.ModuleWrapper.{
  fresh, Handle, Factory, Call, loads, unloads, gets, get_interface, load, unload, run,
}
use rehlds_m.ModuleWrapper.Cache.{get_interface-run}

abbrev by_handle : Option Handle → Option Factory
by_handle none = none
by_handle (some handle) = some (λ name. (some handle, succeeded))

abbrev name : Text
name = b'v' ∷ []

abbrev calls : List (Call by_handle)
calls = loads (some 5) ∷ gets name true ∷ unloads true ∷ loads (some 6) ∷ []

get_interface-run_example :
    (get_interface by_handle name true (run by_handle fresh calls)).0 ≡ some 6
unfolding run load unload get_interface
get_interface-run_example = get_interface-run by_handle calls name true
