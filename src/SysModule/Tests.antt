-- ===== src/SysModule/Tests.antt =====
-- Two modules, of which the first is closed at the second attempt.
use rehlds_m.Base.{ℕ, ◌≡◌, refl, ◌++◌, true, none, some, List, [], ◌∷◌, Text}
use rehlds_m.ModuleWrapper.{Handle}
use rehlds_m.SysModule.{
  FileSystem, Loader, ModuleCall, loads, unloads, load_module, unload_module, module_run,
  unload_opened, unopened,
}
use rehlds_m.SysModule.Balance.{IsBalanced, module_run-IsBalanced}

abbrev plain_files : FileSystem
plain_files = record {
  make_preferred = λ path. path;
  is_absolute = λ path. true;
  current_path = b'/' ∷ [];
  join = λ path rest. path ++ rest;
  exists = λ path. true;
  canonical = λ path. path;
}

-- It gives a handle, and answers to closing with a number.
abbrev giving : Handle → ℕ → Loader
giving handle answer = record {
  dlopen = λ path mode. some handle;
  dlclose = λ h. answer;
  dlsym = λ h name. none;
}

abbrev engine : Text
engine = b'e' ∷ []

abbrev reloads : List ModuleCall
reloads =
    loads plain_files (giving 5 0)
    ∷ loads plain_files (giving 6 0)
    ∷ unloads (giving 5 1)
    ∷ unloads (giving 5 0)
    ∷ loads plain_files (giving 7 0)
    ∷ []

closes_all : (handle : Handle) → unload_module (giving 7 0) handle ≡ true
unfolding unload_module
closes_all handle = refl

module_run-IsBalanced_example :
    let o = module_run (unopened engine) reloads in
    let end = unload_opened (giving 7 0) o in
    IsBalanced o × (end.wrapper.handle ≡ none) × (end.closed ≡ o.opened)
module_run-IsBalanced_example = module_run-IsBalanced engine reloads (giving 7 0) closes_all

opened_test : (module_run (unopened engine) reloads).opened ≡ 5 ∷ 7 ∷ []
unfolding module_run load_module
opened_test = refl
