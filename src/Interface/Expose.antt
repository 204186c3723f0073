-- ===== src/Interface/Expose.antt =====
-- libs/common/include/common/interface.hpp: the macros that expose an interface, as the static
-- initialisation of the program runs them, and the calls of `CreateInterface` then. A new object has
-- the next address; the addresses of a module's variables and of what a function gives are arguments.
pub mod Twice
mod Tests
use rehlds_m.Base.{
  ℕ, suc, Bool, true, false, if◌then◌else◌, Option, none, some, List, [], ◌∷◌, Text,
}
use rehlds_m.Interface.{CreateInterfaceStatus, find, assign, status_of, is_filled, text_of}

-- The functions that the macros register: `new class_name{}`, the address of a variable, or a
-- function of the program, by what it gives.
pub data Instantiate : Type 0 where
  makes_new : Instantiate
  gives : ℕ → Instantiate
  calls : Option ℕ → Instantiate

pub data Expose : Type 0 where
  expose_interface : Text → Expose
  expose_interface_fn : Text → Option ℕ → Expose
  expose_single_interface_globalvar : Text → ℕ → Expose
  expose_single_interface : Text → Expose

-- The next address, and the registry.
pub record Process : Type 0 where
  pub next_address : ℕ
  pub registry : List (Text × Instantiate)

abbrev pub add_instantiate : Text → Instantiate → Process → Process
add_instantiate name f p = record p { registry = assign p.registry name f }

-- `EXPOSE_SINGLE_INTERFACE` makes the variable too.
unfoldable pub expose : Process → Expose → Process
expose p (expose_interface name) = add_instantiate name makes_new p
expose p (expose_interface_fn name given) = add_instantiate name (calls given) p
expose p (expose_single_interface_globalvar name variable) = add_instantiate name (gives variable) p
expose p (expose_single_interface name) =
    add_instantiate name (gives p.next_address) (record p { next_address = suc p.next_address })

unfoldable pub expose_each : Process → List Expose → Process
unfolding expose
expose_each p [] = p
expose_each p (e ∷ es) = expose_each (expose p e) es

abbrev pub instantiate : Option Instantiate → Process → Option ℕ × Process
instantiate none p = (none, p)
instantiate (some makes_new) p =
    (some p.next_address, record p { next_address = suc p.next_address })
instantiate (some (gives variable)) p = (some variable, p)
instantiate (some (calls given)) p = (given, p)

-- `CreateInterface`, with the objects that it makes.
unfoldable pub create_instance :
    Process → Option Text → (Option ℕ × CreateInterfaceStatus) × Process
create_instance p name =
    let (interface, p') =
      instantiate (if is_filled name then find p.registry (text_of name) else none) p in
    ((interface, status_of interface), p')

unfoldable pub create_each : Process → List (Option Text) → Process
unfolding create_instance
create_each p [] = p
create_each p (name ∷ names) = create_each (create_instance p name).1 names
