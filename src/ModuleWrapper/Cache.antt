-- ===== src/ModuleWrapper/Cache.antt =====
-- The cache of interfaces does not show: what is given is what the loaded module makes.
use rehlds_m.Base.{
  ℕ, ◌≡◌, refl, sym, ap, ◌∙◌, inl, inr, Bool, true, false, Bool-cases, Option-cases, if◌then◌else◌,
  Option, none, some, List, [], ◌∷◌, Text, text_eq, text_eq_iff,
}
use rehlds_m.Interface.{CreateInterfaceStatus, succeeded, failed, find, assign}
use rehlds_m.Interface.Registry.{find-assign}
use rehlds_m.ModuleWrapper.{
  fresh, Handle, Factory, ModuleWrapper, load, unload, keep, made_by, get_interface, Call, loads,
  unloads, gets, step, run,
}

module _ (symbol : Option Handle → Option Factory) where
  -- Every interface in the cache is what the module makes for its name.
  abbrev Holds : Option Handle → List (Text × ℕ) → Type 0
  Holds handle interfaces =
      (name : Text) (interface : ℕ)
      → find interfaces name ≡ some interface
      → (made_by (symbol handle) name).0 ≡ some interface

  abbrev IsCurrent : ModuleWrapper → Type 0
  IsCurrent w = Holds w.handle w.interfaces

  Holds-empty : (handle : Option Handle) → Holds handle []
  Holds-empty handle name interface e = cc

  load-IsCurrent :
      (loaded handle : Option Handle) (interfaces : List (Text × ℕ))
      → Holds handle interfaces
      → IsCurrent (load loaded (record { handle = handle; interfaces = interfaces })).1
  unfolding load
  load-IsCurrent loaded (some handle) interfaces h = h
  load-IsCurrent none none interfaces h = h
  load-IsCurrent (some handle) none interfaces h = Holds-empty (some handle)

  unload-IsCurrent :
      (unloaded : Bool) (handle : Option Handle) (interfaces : List (Text × ℕ))
      → Holds handle interfaces
      → IsCurrent (unload unloaded (record { handle = handle; interfaces = interfaces }))
  unfolding unload
  unload-IsCurrent unloaded none interfaces h = h
  unload-IsCurrent true (some handle) interfaces h = Holds-empty none
  unload-IsCurrent false (some handle) interfaces h = h

  assign-Holds :
      (handle : Option Handle) (interfaces : List (Text × ℕ)) (name : Text) (interface : ℕ)
      → Holds handle interfaces
      → (made_by (symbol handle) name).0 ≡ some interface
      → Holds handle (assign interfaces name interface)
  assign-Holds handle interfaces name interface h made other found e =
      elim (Bool-cases (text_eq name other)) [
        | inl t ↦
            let same : name ≡ other = (text_eq_iff name other).0 t in
            ap (λ n. (made_by (symbol handle) n).0) (sym same)
            ∙ made
            ∙ sym (ap (λ b. if b then some interface else find interfaces other) t)
            ∙ sym (find-assign interfaces name other interface)
            ∙ e
        | inr t ↦ h other found (
            sym (ap (λ b. if b then some interface else find interfaces other) t)
            ∙ sym (find-assign interfaces name other interface)
            ∙ e)
      ]

  keep-Holds :
      (handle : Option Handle) (interfaces : List (Text × ℕ)) (cache : Bool) (name : Text)
      (made : Option ℕ × CreateInterfaceStatus)
      → Holds handle interfaces
      → (made_by (symbol handle) name).0 ≡ made.0
      → Holds handle (keep cache name made interfaces)
  keep-Holds handle interfaces true name (some interface, succeeded) h e =
      assign-Holds handle interfaces name interface h e
  keep-Holds handle interfaces true name (some interface, failed) h e = h
  keep-Holds handle interfaces true name (none, status) h e = h
  keep-Holds handle interfaces false name made h e = h

  -- What `get_interface` does by what is found.
  get_interface-IsCurrent :
      (w : ModuleWrapper) (name : Text) (cache : Bool)
      → IsCurrent w
      → ((get_interface symbol name cache w).0 ≡ (made_by (symbol w.handle) name).0)
        × IsCurrent (get_interface symbol name cache w).1
  unfolding get_interface
  get_interface-IsCurrent w name cache h = elim (Option-cases (find w.interfaces name)) [
    | inl e ↦
        rw (e, get_interface)
          (
            refl,
            keep-Holds w.handle w.interfaces cache name (made_by (symbol w.handle) name) h refl,
          )
    | inr (interface, e) ↦ rw (e, get_interface) (sym (h name interface e), h)
  ]

  step-IsCurrent :
      (w : ModuleWrapper) (call : Call symbol) → IsCurrent w → IsCurrent (step symbol w call)
  unfolding step
  step-IsCurrent w (loads loaded) h = load-IsCurrent loaded w.handle w.interfaces h
  step-IsCurrent w (unloads unloaded) h = unload-IsCurrent unloaded w.handle w.interfaces h
  step-IsCurrent w (gets name cache) h = (get_interface-IsCurrent w name cache h).1

  run-IsCurrent :
      (w : ModuleWrapper) (calls : List (Call symbol))
      → IsCurrent w
      → IsCurrent (run symbol w calls)
  unfolding run
  run-IsCurrent w [] h = h
  run-IsCurrent w (call ∷ calls) h =
      run-IsCurrent (step symbol w call) calls (step-IsCurrent w call h)

  -- After any calls of `load`, `unload` and `get_interface`, with any results of the loader, and
  -- for a module whose factory is a function of the name: `get_interface` gives exactly what the
  -- module that is loaded then makes for the name, cached or not, and so never a pointer into a
  -- module that was unloaded.
  pub get_interface-run :
      (calls : List (Call symbol)) (name : Text) (cache : Bool)
      → let w = run symbol fresh calls in
        (get_interface symbol name cache w).0 ≡ (made_by (symbol w.handle) name).0
  get_interface-run calls name cache =
      (get_interface-IsCurrent (run symbol fresh calls) name cache
        (run-IsCurrent fresh calls (Holds-empty none))).0
