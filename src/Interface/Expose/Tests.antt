-- ===== src/Interface/Expose/Tests.antt =====
-- A program that exposes one variable and one interface for several instances.
use rehlds_m.Base.{◌≡◌, refl, some, List, [], ◌∷◌}
use rehlds_m.Interface.Expose.{
  Expose, expose_interface, expose_single_interface, Process, expose_each, create_instance,
  create_each, makes_new,
}
use rehlds_m.Interface.Expose.Twice.{TwiceGiven, create_instance-TwiceGiven}

abbrev exposed : List Expose
exposed = expose_single_interface (b'e' ∷ []) ∷ expose_interface (b'i' ∷ []) ∷ []

abbrev loaded : Process
loaded = expose_each (record { next_address = 100; registry = [] }) exposed

-- The first call gets 101, and the second, behind a call for the variable, 102.
create_instance-TwiceGiven_example :
    let (first, p) = create_instance loaded (some (b'i' ∷ [])) in
    let (second, q) = create_instance (create_each p (some (b'e' ∷ []) ∷ [])) (some (b'i' ∷ [])) in
    TwiceGiven 101 (some makes_new) first.0 second.0
unfolding expose_each create_each
create_instance-TwiceGiven_example =
    create_instance-TwiceGiven 100 exposed [] (some (b'e' ∷ []) ∷ []) b'i' []

single_test : (create_instance loaded (some (b'e' ∷ []))).0.0 ≡ some 100
unfolding create_instance expose_each
single_test = refl
