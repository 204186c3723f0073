-- ===== src/Interface/Tests.antt =====
-- Two registrations of one name.
use rehlds_m.Base.{◌≡◌, refl, some, none, List, [], ◌∷◌, Text, ℕ, Option}
use rehlds_m.Interface.{register_each, create_interface, succeeded}

abbrev name : Text
name = b'v' ∷ []

abbrev calls : List (Text × Option ℕ)
calls = (name, some 3) ∷ (b'w' ∷ [], none) ∷ (name, some 4) ∷ []

second_registration_test :
    create_interface (register_each [] calls) (some name) ≡ (some 4, succeeded)
unfolding create_interface register_each
second_registration_test = refl
