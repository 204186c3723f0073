-- ===== src/Init/Modules/Cached.antt =====
-- The interfaces of the engine that the program has cached when the server starts.
use rehlds_m.Base.{
  ℕ, ◌==◌, ◌≡◌, refl, sym, ap, ◌∙◌, inl, inr, Bool, true, false, Bool-cases, Option-cases, Option,
  none, some, List, [], Text,
}
use rehlds_m.Interface.{CreateInterfaceStatus, succeeded, failed, find}
use rehlds_m.Interface.Registry.{find-assign}
use rehlds_m.ModuleWrapper.{
  ModuleWrapper, Handle, Factory, keep, made_by, load_or_abort, get_interface,
  get_interface_or_abort,
}
use rehlds_m.ServerLoop.Sleep.{System, on_linux, on_windows}
use rehlds_m.Lifecycle.{Callbacks}
use rehlds_m.Init.Modules.Shutdown.{get_interface_or_abort-some}
use rehlds_m.Init.Modules.{
  Program, start, server_api, ◌>>=◌, wrapper_or_fresh, engine_instance, init_socket,
  init_crash_dumper, with_crash_dumper, init_filesystem, init_engine, init_modules, init_program,
  filesystem_instance, register, engine_module, filesystem_module, filesystem_interface,
  handle_or_null, mounted, unmount, clean_up_sockets, Event, loaded, accepted, add_event,
}
use rehlds_m.CrashDumper.{CrashDumper, DumpLibrary}
use rehlds_m.CrashDumper
use rehlds_m.Init.Modules.Engine.{
  system_module, interface_name, get_interface_system, server_interfaces, engine_interfaces,
}

-- A wrapper whose cache has an interface of the server.
abbrev Caches : ModuleWrapper → ℕ → Type 0
Caches w api = find w.interfaces server_api ≡ some api

get_interface_system-Caches :
    (symbol : Option Handle → Option Factory) (get_system : ℕ → Option ℕ) (w : ModuleWrapper)
    (api : ℕ)
    → Caches w api
    → Caches (get_interface_system symbol get_system true w).1 api
unfolding get_interface_system get_interface
get_interface_system-Caches symbol get_system w api h =
    elim (Option-cases (find w.interfaces (interface_name system_module))) [
      | inl e ↦
          rw (e, get_interface) (kept (made_by (symbol w.handle) (interface_name system_module)))
      | inr (interface, e) ↦ rw (e, get_interface) h
    ]
  where
    kept :
        (made : Option ℕ × CreateInterfaceStatus)
        → find (keep true (interface_name system_module) made w.interfaces) server_api ≡ some api
    kept (some interface, succeeded) =
        find-assign w.interfaces (interface_name system_module) server_api interface ∙ h
    kept (some interface, failed) = h
    kept (none, status) = h

-- The engine has the interface of the server, and reports success.
abbrev pub SymbolGives : (Option Handle → Option Factory) → Handle → ℕ → Type 0
SymbolGives symbol handle api = made_by (symbol (some handle)) server_api ≡ (some api, succeeded)

get_interface-Caches :
    (symbol : Option Handle → Option Factory) (w : ModuleWrapper) (api : ℕ)
    → Caches w api
    → get_interface symbol server_api true w ≡ (some api, w)
unfolding get_interface
get_interface-Caches symbol w api h = rw (h, get_interface) refl

get_interface_or_abort-Caches :
    (symbol : Option Handle → Option Factory) (w : ModuleWrapper) (api : ℕ)
    → Caches w api
    → get_interface_or_abort symbol server_api true w ≡ some (api, w)
unfolding get_interface_or_abort
get_interface_or_abort-Caches symbol w api h =
    ap (λ r. elim r.0 [ none ↦ none | some i ↦ some (i, r.1) ])
      (get_interface-Caches symbol w api h)

-- An interface that the cache has is what is given, whatever the module makes now.
server_interfaces-Caches :
    (symbol : Option Handle → Option Factory) (get_system : ℕ → Option ℕ) (w : ModuleWrapper)
    (api : ℕ)
    → Caches w api
    → (system : Option ℕ) × (w' : ModuleWrapper) × (server_interfaces symbol get_system w
        ≡ some (system, api, w'))
unfolding server_interfaces
server_interfaces-Caches symbol get_system w api h =
    let (system, w') = get_interface_system symbol get_system true w in
    let k = get_interface_system-Caches symbol get_system w api h in
    (
      system,
      w',
      ap (λ m. m >>= λ x. some (system, x.0, x.1)) (get_interface_or_abort-Caches symbol w' api k),
    )

engine_instance-some :
    (p : Program) (w : ModuleWrapper) → p.engine ≡ some w → (engine_instance p).engine ≡ some w
unfolding engine_instance
engine_instance-some p w e = rw (e, engine_instance) e

bind-some :
    {A B : Type 0} (m : Option A) (f : A → Option B) (b : B)
    → (m >>= f) ≡ some b
    → (a : A) × (m ≡ some a) × (f a ≡ some b)
bind-some none f b e = cc
bind-some (some a) f b e = (a, refl, e)

accepted-some : (b : Bool) (p q : Program) → accepted b p ≡ some q → (b ≡ true) × (p ≡ q)
accepted-some true p q e = (refl, cc)
accepted-some false p q e = cc

filesystem_instance-engine : (p : Program) → (filesystem_instance p).engine ≡ p.engine
unfolding filesystem_instance
filesystem_instance-engine p = elim (Option-cases p.filesystem) [
  | inl e ↦ rw (e, filesystem_instance) refl
  | inr (w, e) ↦ rw (e, filesystem_instance) refl
]

some-engine : (p q : Program) → ◌≡◌ {A = Option Program} (some p) (some q) → p.engine ≡ q.engine
some-engine p q e = let same : p ≡ q = cc in ap (λ x. x.engine) same

init_crash_dumper-engine :
    (system : System) (library : DumpLibrary) (dumps_crashes : Bool) (p q : Program)
    → init_crash_dumper system library dumps_crashes p ≡ some q
    → q.engine ≡ p.engine
unfolding init_crash_dumper
init_crash_dumper-engine on_linux library dumps_crashes p q e = sym (some-engine p q e)
init_crash_dumper-engine on_windows library false p q e = sym (some-engine p q e)
init_crash_dumper-engine on_windows library true p q e =
    elim (Option-cases (CrashDumper.create library p.crash_dumper)) [
      | inl z ↦ let r = rw z at e in cc
      | inr (d, z) ↦ let r = rw z at e in sym (some-engine (with_crash_dumper p d) q r)
    ]

init_socket-engine :
    (system : System) (error : ℕ) (p q : Program)
    → init_socket system error p ≡ some q
    → q.engine ≡ p.engine
unfolding init_socket
init_socket-engine on_linux error p q e = sym (some-engine p q e)
init_socket-engine on_windows error p q e = elim (Bool-cases (error == 0)) [
  | inl z ↦ let r = rw z at e in sym (some-engine (register clean_up_sockets p) q r)
  | inr z ↦ let r = rw z at e in cc
]

module _ (system : System) (dlopen : Text → Option Handle) (symbol : Option Handle → Option Factory)
    (dlclose : Handle → Bool) (engine_init : ℕ → Bool) where
  abbrev cached : Handle → ℕ → ModuleWrapper
  cached handle api = record {
    handle = some handle;
    interfaces = keep true server_api (made_by (symbol (some handle)) server_api) [];
  }

  -- What `init_engine` does where the engine was not used before.
  init_engine-cached :
      (filesystem : Option ModuleWrapper) (crash_dumper : CrashDumper) (callbacks : Callbacks)
      (captured : ℕ) (events : List Event) (handle : Handle) (api : ℕ)
      → let p : Program = record {
        filesystem = filesystem;
        engine = none;
        crash_dumper = crash_dumper;
        callbacks = callbacks;
        captured = captured;
        events = events;
      } in
        dlopen (engine_module system) ≡ some handle
        → SymbolGives symbol handle api
        → init_engine system dlopen symbol dlclose engine_init p
          ≡ accepted (engine_init api) (
              add_event
                (loaded handle)
                (record (engine_instance p) { engine = some (cached handle api) }))
  unfolding init_engine engine_instance
  init_engine-cached filesystem crash_dumper callbacks captured events handle api opened made =
      rw
        (
          opened,
          get_interface_or_abort-some system dlopen symbol dlclose engine_init handle server_api api
              (ap (λ m. m.0) made),
        )
        refl

  init_engine-Caches :
      (p q : Program) (handle : Handle) (api : ℕ)
      → p.engine ≡ none
      → dlopen (engine_module system) ≡ some handle
      → SymbolGives symbol handle api
      → init_engine system dlopen symbol dlclose engine_init p ≡ some q
      → (engine_init api ≡ true) × (q.engine ≡ some (cached handle api))
  init_engine-Caches p q handle api e opened made done =
      let same : p ≡ record p { engine = none } = ap (λ o. record p { engine = o }) e in
      let (yes_init, r) = accepted-some (engine_init api) _ q (
        sym (
          init_engine-cached p.filesystem p.crash_dumper p.callbacks p.captured p.events handle api
            opened made)
        ∙ ap (init_engine system dlopen symbol dlclose engine_init) (sym same)
        ∙ done) in
      (yes_init, sym (ap (λ x. x.engine) r))

  init_filesystem-engine :
      (p q : Program)
      → init_filesystem system dlopen symbol dlclose engine_init p ≡ some q
      → q.engine ≡ p.engine
  unfolding init_filesystem
  init_filesystem-engine p q done =
      let p1 = filesystem_instance p in
      let event : ModuleWrapper → Event = λ w. loaded (handle_or_null w.handle) in
      let mount : ModuleWrapper → ℕ × ModuleWrapper → Program = λ w x. register unmount (
        add_event (mounted x.0)
          (add_event (event w) (record p1 { filesystem = some x.1; captured = x.0 }))) in
      let asked : ModuleWrapper → Option (ℕ × ModuleWrapper) =
        get_interface_or_abort symbol filesystem_interface true in
      let (w, opened, next) =
        bind-some
          (load_or_abort (dlopen (filesystem_module system)) (wrapper_or_fresh p1.filesystem))
          (λ w. asked w >>= λ x. some (mount w x)) q done in
      let (x, got, last) = bind-some (asked w) (λ x. some (mount w x)) q next in
      sym (some-engine (mount w x) q last) ∙ filesystem_instance-engine p

-- What `init_engine` was given, where the engine makes an interface of the server: that `init`
-- accepted it, and that `run_server_loop` gets the same one, whatever the engine's module would make by
-- then, and whatever comes of its system.
pub engine_interfaces-init_program :
    (system : System) (dlopen : Text → Option Handle)
    (symbol later : Option Handle → Option Factory) (dlclose : Handle → Bool)
    (engine_init : ℕ → Bool) (get_system : ℕ → Option ℕ) (library : DumpLibrary)
    (dumps_crashes : Bool) (error : ℕ) (p : Program) (handle : Handle) (api : ℕ)
    → dlopen (engine_module system) ≡ some handle
    → SymbolGives symbol handle api
    → init_program system dlopen symbol dlclose engine_init library dumps_crashes error start
      ≡ some p
    → (engine_init api ≡ true)
      × (got : Option ℕ) × (w : ModuleWrapper) × (engine_interfaces later get_system p
          ≡ some (got, api, w))
unfolding init_program init_modules engine_interfaces
engine_interfaces-init_program system dlopen symbol later dlclose engine_init get_system library
      dumps_crashes error p handle api opened made done =
    let load : Program → Option Program =
      init_filesystem system dlopen symbol dlclose engine_init in
    let run : Program → Option Program = init_engine system dlopen symbol dlclose engine_init in
    let (p0, begun, before) =
      bind-some (init_crash_dumper system library dumps_crashes start)
        (λ a. init_socket system error a >>= λ b. load b >>= run) p done in
    let (p1, first, next) =
      bind-some (init_socket system error p0) (λ a. load a >>= run) p before in
    let (p2, second, last) = bind-some (load p1) run p next in
    let unused : p2.engine ≡ none =
      init_filesystem-engine system dlopen symbol dlclose engine_init p1 p2 second
      ∙ init_socket-engine system error p0 p1 first
      ∙ init_crash_dumper-engine system library dumps_crashes start p0 begun in
    let (accepts, cache) =
      init_engine-Caches system dlopen symbol dlclose engine_init p2 p handle api unused opened made
        last in
    let w = cached system dlopen symbol dlclose engine_init handle api in
    let (got, w', e) =
      server_interfaces-Caches later get_system w api
        (ap (λ m. find (keep true server_api m []) server_api) made) in
    (
      accepts,
      got,
      w',
      ap (λ o. server_interfaces later get_system (wrapper_or_fresh o))
            (engine_instance-some p w cache)
          ∙ e,
    )
