-- ===== src/SysModule.antt =====
-- libs/util/src/util/system.cpp and the module.hpp of libs/util/include/util/linux/system and
-- libs/util/include/util/windows/system: the loading of modules by the system, and the wrapper of
-- libs/common/src/common/module_wrapper.cpp over it. A handle and an address are numbers, the file
-- system and the loader parameters; the casts of a handle and of an address are left out.
pub mod Balance
mod Tests
use rehlds_m.Base.{
  ℕ, Bool, true, false, ◌&&◌, not, ◌==◌, if◌then◌else◌, Option, none, some, List, [], ◌∷◌, ◌++◌,
  Text,
}
use rehlds_m.Interface.{CreateInterfaceStatus}
use rehlds_m.ModuleWrapper.{ModuleWrapper, Handle, Factory, fresh, is_loaded, load, unload}

-- What `std::filesystem` answers.
pub record FileSystem : Type 0 where
  pub make_preferred : Text → Text
  pub is_absolute : Text → Bool
  pub current_path : Text
  pub join : Text → Text → Text
  pub exists : Text → Bool
  pub canonical : Text → Text

unfoldable pub get_module_canonical_path : FileSystem → Text → Text
get_module_canonical_path fs filename =
    let given = fs.make_preferred filename in
    let path = if not (fs.is_absolute given) then fs.join fs.current_path given else given in
    if fs.exists path then fs.canonical path else []

abbrev pub or_else : Text → Text → Text
or_else [] filename = filename
or_else (c ∷ path) filename = c ∷ path

-- The mode RTLD_NOW.
abbrev pub rtld_now : ℕ
rtld_now = 2

-- The loader of Linux. A mode is a number, and `dlclose` gives one.
pub record Loader : Type 0 where
  pub dlopen : Text → ℕ → Option Handle
  pub dlclose : Handle → ℕ
  pub dlsym : Option Handle → Text → Option ℕ

unfoldable pub load_module : FileSystem → Loader → Text → ℕ → Option Handle
unfolding get_module_canonical_path
load_module fs loader filename mode =
    loader.dlopen (or_else (get_module_canonical_path fs filename) filename) mode

unfoldable pub unload_module : Loader → Handle → Bool
unload_module loader handle = loader.dlclose handle == 0

unfoldable pub get_symbol_address : Loader → Option Handle → Text → Option ℕ
get_symbol_address loader handle symbol_name = loader.dlsym handle symbol_name

-- That of Windows, whose `FreeLibrary` gives FALSE, 0, where it fails. The length of a file name is
-- 0 where it could not be told; the name is then the bytes up to the first zero.
pub record WindowsLoader : Type 0 where
  pub load_library : Text → Option Handle
  pub free_library : Handle → ℕ
  pub get_proc_address : Option Handle → Text → Option ℕ
  pub get_module_file_name : Option Handle → ℕ × Text

unfoldable pub load_library_module : FileSystem → WindowsLoader → Text → Option Handle
unfolding get_module_canonical_path
load_library_module fs loader filename =
    loader.load_library (or_else (get_module_canonical_path fs filename) filename)

unfoldable pub free_library_module : WindowsLoader → Handle → Bool
free_library_module loader handle = not (loader.free_library handle == 0)

unfoldable pub get_proc_address_of : WindowsLoader → Option Handle → Text → Option ℕ
get_proc_address_of loader handle symbol_name = loader.get_proc_address handle symbol_name

unfoldable pub get_module_filename : WindowsLoader → Option Handle → Text
get_module_filename loader module_handle =
    let (name_len, name) = loader.get_module_file_name module_handle in
    if name_len == 0 then [] else name

-- The function that stands at an address.
abbrev pub function_at : (ℕ → Factory) → Option ℕ → Option Factory
function_at code none = none
function_at code (some address) = some (code address)

abbrev pub create_interface_symbol : Text
create_interface_symbol =
    (b'C' ∷ b'r' ∷ b'e' ∷ b'a' ∷ b't' ∷ b'e' ∷ b'I' ∷ b'n' ∷ b't' ∷ b'e' ∷ b'r' ∷ b'f' ∷ b'a' ∷ b'c'
      ∷ b'e' ∷ [])

-- `ModuleWrapper::get_interface_factory`
unfoldable pub get_interface_factory : Loader → (ℕ → Factory) → Option Handle → Option Factory
unfolding get_symbol_address
get_interface_factory loader code handle =
    function_at code (get_symbol_address loader handle create_interface_symbol)

-- A module of a name, with the handles that the system gave it and took back, in their order.
pub record Opened : Type 0 where
  pub name : Text
  pub wrapper : ModuleWrapper
  pub opened : List Handle
  pub closed : List Handle

abbrev pub handle_list : Option Handle → List Handle
handle_list none = []
handle_list (some handle) = handle ∷ []

abbrev pub unloaded_by : (Handle → Bool) → Option Handle → Bool
unloaded_by close none = false
unloaded_by close (some handle) = close handle

-- `ModuleWrapper::load` with its call of the loader, which is made only without a module.
unfoldable pub load_opened : FileSystem → Loader → Opened → Bool × Opened
unfolding load load_module
load_opened fs loader o =
    let found = load_module fs loader o.name rtld_now in
    let (done, w) = load found o.wrapper in
    (
      done,
      record o {
        wrapper = w;
        opened = o.opened ++ (if is_loaded o.wrapper then [] else handle_list found);
      },
    )

-- `ModuleWrapper::unload` with its call of the loader.
unfoldable pub unload_opened : Loader → Opened → Opened
unfolding unload unload_module
unload_opened loader o =
    let unloaded = unloaded_by (unload_module loader) o.wrapper.handle in
    record o {
      wrapper = unload unloaded o.wrapper;
      closed = o.closed ++ (if unloaded then handle_list o.wrapper.handle else []);
    }

pub data ModuleCall : Type 0 where
  loads : FileSystem → Loader → ModuleCall
  unloads : Loader → ModuleCall

unfoldable pub module_step : Opened → ModuleCall → Opened
unfolding load_opened unload_opened
module_step o (loads fs loader) = (load_opened fs loader o).1
module_step o (unloads loader) = unload_opened loader o

unfoldable pub module_run : Opened → List ModuleCall → Opened
unfolding module_step
module_run o [] = o
module_run o (call ∷ calls) = module_run (module_step o call) calls

-- The wrapper as it is constructed.
abbrev pub unopened : Text → Opened
unopened name = record { name = name; wrapper = fresh; opened = []; closed = [] }
