-- ===== src/Interface.antt =====
-- libs/common/include/common/interface.hpp and libs/common/src/common/interface.cpp: the registry of
-- interfaces and `CreateInterface`, which other modules call by its name. A pointer to an interface
-- is a number, none the null pointer; a function that makes one is what it gives.
pub mod Registry
pub mod Expose
mod Tests
use rehlds_m.Base.{
  ℕ, Bool, true, false, if◌then◌else◌, Option, none, some, List, [], ◌∷◌, Text, text_eq,
}

pub data CreateInterfaceStatus : Type 0 where
  succeeded failed : CreateInterfaceStatus

abbrev pub InterfaceList : Type 0
InterfaceList = List (Text × Option ℕ)

-- The names of an `std::unordered_map`, of which each stands once.
abbrev pub find {ℓ} : {A : Type ℓ} → List (Text × A) → Text → Option A
find [] name = none
find ((n, a) ∷ rest) name = if text_eq n name then some a else find rest name

abbrev pub assign {ℓ} : {A : Type ℓ} → List (Text × A) → Text → A → List (Text × A)
assign [] name a = (name, a) ∷ []
assign ((n, b) ∷ rest) name a =
    if text_eq n name then (n, a) ∷ rest else (n, b) ∷ assign rest name a

-- The constructor of `InterfaceRegistry`.
unfoldable pub register : InterfaceList → Text → Option ℕ → InterfaceList
register list interface_name instantiate_func = assign list interface_name instantiate_func

-- What a function gives that was found, or not.
abbrev pub given : Option (Option ℕ) → Option ℕ
given none = none
given (some interface) = interface

abbrev pub status_of : Option ℕ → CreateInterfaceStatus
status_of none = failed
status_of (some interface) = succeeded

abbrev pub is_filled : Option Text → Bool
is_filled none = false
is_filled (some []) = false
is_filled (some (c ∷ name)) = true

abbrev pub text_of : Option Text → Text
text_of none = []
text_of (some name) = name

-- The name is none for a null pointer.
unfoldable pub create_interface : InterfaceList → Option Text → Option ℕ × CreateInterfaceStatus
create_interface list name =
    let interface = if is_filled name then given (find list (text_of name)) else none in
    (interface, status_of interface)

unfoldable pub register_each : InterfaceList → List (Text × Option ℕ) → InterfaceList
unfolding register
register_each list [] = list
register_each list ((name, f) ∷ rest) = register_each (register list name f) rest
