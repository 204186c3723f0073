-- ===== src/Init/Modules/Engine.antt =====
-- libs/common/include/common/engine/engine_wrapper.hpp, the interfaces of the engine by their kind, and
-- what `run_server_loop` of apps/hlds/src/hlds/hlds.main.cpp asks the engine for, behind
-- `Init.Modules`. What the engine gives for its system is an argument.
use rehlds_m.Base.{ℕ, Bool, true, Option, none, some, [], ◌∷◌, Text}
use rehlds_m.ModuleWrapper.{ModuleWrapper, Handle, Factory, get_interface, get_interface_or_abort}
use rehlds_m.Init.Modules.{Program, server_api, ◌>>=◌, wrapper_or_fresh, engine_instance}

pub data EngineInterface : Type 0 where
  server_api_interface system_module : EngineInterface

abbrev pub interface_name : EngineInterface → Text
interface_name server_api_interface = server_api
interface_name system_module =
    (b'b' ∷ b'a' ∷ b's' ∷ b'e' ∷ b's' ∷ b'y' ∷ b's' ∷ b't' ∷ b'e' ∷ b'm' ∷ b'0' ∷ b'0' ∷ b'2' ∷ [])

abbrev pub system_of : (ℕ → Option ℕ) → Option ℕ → Option ℕ
system_of get_system none = none
system_of get_system (some interface) = get_system interface

module _ (symbol : Option Handle → Option Factory) (get_system : ℕ → Option ℕ) where
  unfoldable pub get_interface_system : Bool → ModuleWrapper → Option ℕ × ModuleWrapper
  unfolding get_interface
  get_interface_system cache w =
      let (interface, w') = get_interface symbol (interface_name system_module) cache w in
      (system_of get_system interface, w')

  -- The system, the interface of the server, and the wrapper.
  unfoldable pub server_interfaces : ModuleWrapper → Option (Option ℕ × ℕ × ModuleWrapper)
  unfolding get_interface_system get_interface_or_abort
  server_interfaces w =
      let (system, w') = get_interface_system true w in
      do
        (interface, w'') ←
            get_interface_or_abort symbol (interface_name server_api_interface) true w'
        some (system, interface, w'')

  -- The first statements of `run_server_loop`.
  unfoldable pub engine_interfaces : Program → Option (Option ℕ × ℕ × ModuleWrapper)
  unfolding server_interfaces engine_instance
  engine_interfaces p = server_interfaces (wrapper_or_fresh (engine_instance p).engine)
