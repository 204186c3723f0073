-- ===== src/Interface/Expose/Twice.antt =====
-- Two calls of `CreateInterface` for one name.
use rehlds_m.Base.{
  ℕ, suc, ◌≡◌, ◌≤◌, ◌<◌, refl, sym, ap, ◌∙◌, subst, if◌then◌else◌, Option, none, some, List, [],
  ◌∷◌, Text, text_eq, arith,
}
use rehlds_m.Interface.{find, is_filled, text_of}
use rehlds_m.Interface.Registry.{find-assign}
use rehlds_m.Interface.Expose.{
  Instantiate, makes_new, gives, calls, Expose, expose_interface, expose_interface_fn,
  expose_single_interface_globalvar, expose_single_interface, Process, expose, expose_each,
  instantiate, create_instance, create_each,
}

-- How a name was exposed last, and with which variable; `variables` is the next address.
abbrev pub last_exposed : ℕ → List Expose → Text → Option Instantiate → Option Instantiate
last_exposed variables [] name before = before
last_exposed variables (expose_interface n ∷ es) name before =
    last_exposed variables es name (if text_eq n name then some makes_new else before)
last_exposed variables (expose_interface_fn n given ∷ es) name before =
    last_exposed variables es name (if text_eq n name then some (calls given) else before)
last_exposed variables (expose_single_interface_globalvar n variable ∷ es) name before =
    last_exposed variables es name (if text_eq n name then some (gives variable) else before)
last_exposed variables (expose_single_interface n ∷ es) name before =
    last_exposed (suc variables) es name (if text_eq n name then some (gives variables) else before)

find-expose_each :
    (p : Process) (es : List Expose) (name : Text)
    → find (expose_each p es).registry name
      ≡ last_exposed p.next_address es name (find p.registry name)
unfolding expose_each
find-expose_each p [] name = refl
find-expose_each p (expose_interface n ∷ es) name =
    find-expose_each (expose p (expose_interface n)) es name
    ∙ ap (last_exposed p.next_address es name) (find-assign p.registry n name makes_new)
find-expose_each p (expose_interface_fn n given ∷ es) name =
    find-expose_each (expose p (expose_interface_fn n given)) es name
    ∙ ap (last_exposed p.next_address es name) (find-assign p.registry n name (calls given))
find-expose_each p (expose_single_interface_globalvar n variable ∷ es) name =
    find-expose_each (expose p (expose_single_interface_globalvar n variable)) es name
    ∙ ap (last_exposed p.next_address es name) (find-assign p.registry n name (gives variable))
find-expose_each p (expose_single_interface n ∷ es) name =
    find-expose_each (expose p (expose_single_interface n)) es name
    ∙ ap (last_exposed (suc p.next_address) es name)
        (find-assign p.registry n name (gives p.next_address))

-- Calls leave the registry as it is, and only take addresses.
instantiate-Keeps :
    (f : Option Instantiate) (p : Process)
    → ((instantiate f p).1.registry ≡ p.registry)
      × (p.next_address ≤ (instantiate f p).1.next_address)
instantiate-Keeps none p = (refl, omega arith)
instantiate-Keeps (some makes_new) p = (refl, omega arith)
instantiate-Keeps (some (gives variable)) p = (refl, omega arith)
instantiate-Keeps (some (calls given)) p = (refl, omega arith)

create_each-Keeps :
    (p : Process) (names : List (Option Text))
    → ((create_each p names).registry ≡ p.registry)
      × (p.next_address ≤ (create_each p names).next_address)
unfolding create_each
create_each-Keeps p [] = (refl, omega arith)
create_each-Keeps p (name ∷ names) =
    let (same, more) =
      instantiate-Keeps (if is_filled name then find p.registry (text_of name) else none) p in
    let (sames, mores) = create_each-Keeps (create_instance p name).1 names in
    (sames ∙ same, omega (arith, more, mores))

-- What two calls give for a name: of several instances two new objects, otherwise one and the same.
abbrev pub TwiceGiven : ℕ → Option Instantiate → Option ℕ → Option ℕ → Type 0
TwiceGiven next none first second = (first ≡ none) × (second ≡ none)
TwiceGiven next (some makes_new) first second =
    (a b : ℕ) × (first ≡ some a) × (second ≡ some b) × (next ≤ a) × (a < b)
TwiceGiven next (some (gives variable)) first second =
    (first ≡ some variable) × (second ≡ some variable)
TwiceGiven next (some (calls given)) first second = (first ≡ given) × (second ≡ given)

instantiate-TwiceGiven :
    (f : Option Instantiate) (next : ℕ) (p q : Process)
    → next ≤ p.next_address
    → (instantiate f p).1.next_address ≤ q.next_address
    → TwiceGiven next f (instantiate f p).0 (instantiate f q).0
instantiate-TwiceGiven none next p q h k = (refl, refl)
instantiate-TwiceGiven (some makes_new) next p q h k =
    (p.next_address, q.next_address, refl, refl, h, k)
instantiate-TwiceGiven (some (gives variable)) next p q h k = (refl, refl)
instantiate-TwiceGiven (some (calls given)) next p q h k = (refl, refl)

-- After the static initialisation has exposed interfaces, and with any calls before them and between
-- them, two calls of `CreateInterface` for a name that is not empty: if the name was last exposed for
-- several instances, each gives a new object, behind the addresses that the variables of the macros
-- took, and the second another one than the first; otherwise both give the one variable, or what the
-- function gives, and the null pointer for a name that was not exposed.
pub create_instance-TwiceGiven :
    (start : ℕ) (es : List Expose) (before between : List (Option Text)) (c : ℕ) (name : Text)
    → let loaded = expose_each (record { next_address = start; registry = [] }) es in
      let p = create_each loaded before in
      let (first, p') = create_instance p (some (c ∷ name)) in
      let (second, q) = create_instance (create_each p' between) (some (c ∷ name)) in
      TwiceGiven loaded.next_address (last_exposed start es (c ∷ name) none) first.0 second.0
unfolding create_instance
create_instance-TwiceGiven start es before between c name =
    let loaded = expose_each (record { next_address = start; registry = [] }) es in
    let exposed = last_exposed start es (c ∷ name) none in
    let p = create_each loaded before in
    let found = find-expose_each (record { next_address = start; registry = [] }) es (c ∷ name) in
    let (same, more) = create_each-Keeps loaded before in
    let f = find p.registry (c ∷ name) in
    let p' = (instantiate f p).1 in
    let (same', more') = instantiate-Keeps f p in
    let (same'', more'') = create_each-Keeps p' between in
    let e : f ≡ exposed = ap (λ r. find r (c ∷ name)) same ∙ found in
    let e' : find (create_each p' between).registry (c ∷ name) ≡ f =
      ap (λ r. find r (c ∷ name)) (same'' ∙ same') in
    let next = loaded.next_address in
    let q = create_each p' between in
    subst (λ g. TwiceGiven next exposed (instantiate f p).0 (instantiate g q).0) (sym e')
      (subst (λ x. TwiceGiven next x (instantiate f p).0 (instantiate f q).0) e
        (instantiate-TwiceGiven f next p q more more''))
