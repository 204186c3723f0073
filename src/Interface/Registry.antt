-- ===== src/Interface/Registry.antt =====
-- What the registry finds.
use mathlib.Core.Bool.{false≢true}
use rehlds_m.Base.{
  ℕ, ◌≡◌, refl, sym, ap, ◌∙◌, inl, inr, Bool, true, false, Bool-cases, if◌then◌else◌, Option, none,
  some, List, [], ◌∷◌, Text, text_eq, text_eq_iff,
}
use rehlds_m.Interface.{
  failed, InterfaceList, find, assign, register, register_each, given, status_of, create_interface,
}

pub text_eq_refl : (s : Text) → text_eq s s ≡ true
text_eq_refl s = (text_eq_iff s s).1 refl

module _ {ℓ} {A : Type ℓ} where
  merge :
      (t : Bool) (x z y : Option A) → (if t then x else y) ≡ (if t then x else (if t then z else y))
  merge true x z y = refl
  merge false x z y = refl

  find-assign_go :
      (n name other : Text) (b a : A) (rest : List (Text × A))
      → find (assign rest name a) other ≡ (if text_eq name other then some a else find rest other)
      → find (assign ((n, b) ∷ rest) name a) other
        ≡ (if text_eq name other then some a else find ((n, b) ∷ rest) other)
  find-assign_go n name other b a rest ih = elim (Bool-cases (text_eq n name)) [
    | inl e ↦
        let same : n ≡ name = (text_eq_iff n name).0 e in
        rw (e) (rw (same) (merge (text_eq name other) (some a) (some b) (find rest other)))
    | inr e ↦ rw (e) (elim (Bool-cases (text_eq n other)) [
      | inl f ↦ rw (f) (elim (Bool-cases (text_eq name other)) [
        | inl g ↦ absurd (
            false≢true (
              sym e
              ∙ (text_eq_iff n name).1
                  ((text_eq_iff n other).0 f ∙ sym ((text_eq_iff name other).0 g))))
        | inr g ↦ rw (g) refl
      ])
      | inr f ↦ rw (f) ih
    ])
  ]

  -- A name has what was assigned to it last.
  pub find-assign :
      (list : List (Text × A)) (name other : Text) (a : A)
      → find (assign list name a) other ≡ (if text_eq name other then some a else find list other)
  find-assign [] name other a = refl
  find-assign ((n, b) ∷ rest) name other a =
      find-assign_go n name other b a rest (find-assign rest name other a)

-- The last registration of a name, if it has one.
abbrev pub last_of : List (Text × Option ℕ) → Text → Option (Option ℕ) → Option (Option ℕ)
last_of [] name before = before
last_of ((n, f) ∷ rest) name before = last_of rest name (if text_eq n name then some f else before)

find-register_each :
    (list : InterfaceList) (calls : List (Text × Option ℕ)) (name : Text)
    → find (register_each list calls) name ≡ last_of calls name (find list name)
unfolding register_each register
find-register_each list [] name = refl
find-register_each list ((n, f) ∷ rest) name =
    find-register_each (assign list n f) rest name
    ∙ ap (last_of rest name) (find-assign list n name f)

-- After any registrations, `CreateInterface` gives, for a name, what the function makes that was
-- registered last under it; it gives the null pointer for a name that was not registered, an empty
-- one and a null one, and it reports success exactly if it gives another pointer.
pub create_interface-register_each :
    (calls : List (Text × Option ℕ)) (c : ℕ) (name : Text)
    → let list = register_each [] calls in
      let made = given (last_of calls (c ∷ name) none) in
      (create_interface list (some (c ∷ name)) ≡ (made, status_of made))
      × (create_interface list (some []) ≡ (none, failed))
      × (create_interface list none ≡ (none, failed))
unfolding create_interface
create_interface-register_each calls c name =
    (ap (λ o. (given o, status_of (given o))) (find-register_each [] calls (c ∷ name)), refl, refl)
