-- ===== src/Init/Modules/Shutdown.antt =====
-- The order in which the modules are loaded and closed.
use rehlds_m.Base.{
  ℕ, ◌+◌, ◌++◌, ◌==◌, if◌then◌else◌, ◌≡◌, refl, Bool, true, false, Option, none, some, List, [],
  ◌∷◌, Text, Option-cases, Bool-cases, inl, inr,
}
use rehlds_m.ServerLoop.Sleep.{System, on_linux, on_windows}
use rehlds_m.ModuleWrapper.{
  Handle, ModuleWrapper, Factory, keep, made_by, get_interface, get_interface_or_abort,
}
use rehlds_m.CrashDumper.{CrashDumper, DumpLibrary}
use rehlds_m.CrashDumper
use rehlds_m.Init.Modules.{
  filtered, add_event, no_crash_dumper, destroy_crash_dumper, init_crash_dumper, init_socket, Event,
  register, destroy_engine, destroy_filesystem, unmount, cleaned_up, clean_up_sockets, init_program,
  loaded, mounted, unmounted, closed, Program, start, filesystem_module, engine_module,
  filesystem_interface, server_api, ◌>>=◌, init_modules, exit,
}

abbrev pub events_of : Option Program → Option (List Event)
events_of none = none
events_of (some p) = some p.events

abbrev pub opened : Handle → ModuleWrapper
opened handle = record { handle = some handle; interfaces = [] }

-- What the program begins with: the handle of dbghelp.dll and the address in it, if it dumps
-- crashes, and whether it started the sockets.
abbrev pub Dumper : Type 0
Dumper = Option (Handle × Option ℕ)

abbrev pub rounds : Bool → Bool → ℕ
rounds dumps sockets = 3 + ((if dumps then 1 else 0) + (if sockets then 1 else 0))

abbrev pub is_dumping : Dumper → Bool
is_dumping none = false
is_dumping (some d) = true

-- The filter that the crash dumper sets, and the one of before.
abbrev first_events : Dumper → List Event
first_events none = []
first_events (some (handle, address)) = loaded handle ∷ filtered (some 1) ∷ []

module _ (system : System) (dlopen : Text → Option Handle) (symbol : Option Handle → Option Factory)
    (dlclose : Handle → Bool) (engine_init : ℕ → Bool) where
  abbrev last_events : Dumper → List Event
  last_events none = []
  last_events (some (handle, address)) = filtered none ∷ closed handle (dlclose handle) ∷ []

  abbrev pub whole_run : Dumper → Bool → Handle → ℕ → Handle → Bool → Option (List Event)
  whole_run dumper sockets filesystem interface engine false = none
  whole_run dumper sockets filesystem interface engine true = some (
      first_events dumper
      ++ (loaded filesystem
          ∷ mounted interface
          ∷ loaded engine
          ∷ closed engine (dlclose engine)
          ∷ unmounted interface
          ∷ closed filesystem (dlclose filesystem)
          ∷ ((if sockets then cleaned_up ∷ [] else []) ++ last_events dumper)))

  -- What a run of the program should be: it aborts if something is missing, and otherwise closes
  -- what it opened, the last first.
  abbrev pub nested_events : Dumper → Bool → Option (List Event)
  nested_events dumper sockets = do
    filesystem ← dlopen (filesystem_module system)
    interface ← (made_by (symbol (some filesystem)) filesystem_interface).0
    engine ← dlopen (engine_module system)
    api ← (made_by (symbol (some engine)) server_api).0
    whole_run dumper sockets filesystem interface engine (engine_init api)

  pub get_interface_or_abort-some :
      (handle : Handle) (name : Text) (interface : ℕ)
      → (made_by (symbol (some handle)) name).0 ≡ some interface
      → get_interface_or_abort symbol name true (opened handle)
        ≡ some (
          interface,
          record (opened handle) {
            interfaces = keep true name (made_by (symbol (some handle)) name) [];
          },
        )
  unfolding get_interface_or_abort get_interface
  get_interface_or_abort-some handle name interface e =
      rw (e, get_interface_or_abort, get_interface) refl

  get_interface_or_abort-none :
      (handle : Handle) (name : Text)
      → (made_by (symbol (some handle)) name).0 ≡ none
      → get_interface_or_abort symbol name true (opened handle) ≡ none
  unfolding get_interface_or_abort get_interface
  get_interface_or_abort-none handle name e = rw (e, get_interface_or_abort, get_interface) refl

  abbrev dumper_of : Dumper → CrashDumper
  dumper_of none = no_crash_dumper
  dumper_of (some (handle, address)) = record {
    dbghelp = some handle;
    mini_dump_write_dump = address;
    previous_exception_filter = none;
    current_filter = some 1;
  }

  abbrev dumping : Dumper → Program
  dumping dumper = record start {
    crash_dumper = dumper_of dumper;
    callbacks = if is_dumping dumper then some (destroy_crash_dumper ∷ []) else none;
    events = first_events dumper;
  }

  abbrev begun_with : Dumper → Bool → Program
  begun_with dumper sockets = record (dumping dumper) {
    callbacks =
        if sockets
        then (register clean_up_sockets (dumping dumper)).callbacks
        else (dumping dumper).callbacks;
  }

  -- The exit of a program that loaded both modules.
  abbrev has_loaded : Program → Handle → Handle → ℕ → List (Text × ℕ) → List (Text × ℕ) → Program
  has_loaded p filesystem engine interface fs es =
      let p' = register unmount (
        add_event (mounted interface)
          (add_event (loaded filesystem) (register destroy_filesystem p))) in
      record (add_event (loaded engine) (register destroy_engine p')) {
        filesystem = some (record { handle = some filesystem; interfaces = fs });
        engine = some (record { handle = some engine; interfaces = es });
        captured = interface;
      }

  exit-loaded :
      (dumper : Dumper) (sockets : Bool) (filesystem engine : Handle) (interface : ℕ)
      (fs es : List (Text × ℕ))
      → events_of (
          exit system dlopen symbol dlclose engine_init
            (rounds (is_dumping dumper) sockets)
            (has_loaded (begun_with dumper sockets) filesystem engine interface fs es))
        ≡ whole_run dumper sockets filesystem interface engine true
  unfolding exit
  exit-loaded none true filesystem engine interface fs es = refl
  exit-loaded none false filesystem engine interface fs es = refl
  exit-loaded (some (handle, address)) true filesystem engine interface fs es = refl
  exit-loaded (some (handle, address)) false filesystem engine interface fs es = refl

  exit-init_modules_from :
      (dumper : Dumper) (sockets : Bool)
      → events_of (
          init_modules system dlopen symbol dlclose engine_init (begun_with dumper sockets)
          >>= exit system dlopen symbol dlclose engine_init (rounds (is_dumping dumper) sockets))
        ≡ nested_events dumper sockets
  unfolding init_modules exit
  exit-init_modules_from dumper sockets = elim (Option-cases (dlopen (filesystem_module system))) [
    | inl e ↦ rw e refl
    | inr (filesystem, e) ↦
        elim (Option-cases (made_by (symbol (some filesystem)) filesystem_interface).0) [
          | inl f ↦ rw (e, get_interface_or_abort-none filesystem filesystem_interface f, f) refl
          | inr (interface, f) ↦
              let got = get_interface_or_abort-some filesystem filesystem_interface interface f in
              elim (Option-cases (dlopen (engine_module system))) [
                | inl g ↦ rw (e, got, f, g) refl
                | inr (engine, g) ↦
                    elim (Option-cases (made_by (symbol (some engine)) server_api).0) [
                      | inl h ↦
                          rw (e, got, f, g, get_interface_or_abort-none engine server_api h, h) refl
                      | inr (api, h) ↦ elim (Bool-cases (engine_init api)) [
                        | inl a ↦
                            rw
                              (
                                e,
                                got,
                                f,
                                g,
                                get_interface_or_abort-some engine server_api api h,
                                h,
                                a,
                              )
                              (exit-loaded dumper sockets filesystem engine interface
                                (keep true filesystem_interface
                                  (made_by (symbol (some filesystem)) filesystem_interface) [])
                                (keep true server_api (made_by (symbol (some engine)) server_api)
                                  []))
                        | inr a ↦
                            rw
                              (
                                e,
                                got,
                                f,
                                g,
                                get_interface_or_abort-some engine server_api api h,
                                h,
                                a,
                              )
                              refl
                      ]
                    ]
              ]
        ]
  ]

  -- What a whole program should be: only Windows dumps crashes, if the arguments want it and
  -- dbghelp.dll has the function, and has sockets to start and to clean up.
  abbrev pub program_events : DumpLibrary → Bool → ℕ → Option (List Event)
  program_events library dumps_crashes error = elim system [
    | on_linux ↦ nested_events none false
    | on_windows ↦ elim dumps_crashes [
      | false ↦ if error == 0 then nested_events none true else none
      | true ↦ do
        handle ← library.module_handle
        address ← library.write_dump_address handle
        if error == 0 then nested_events (some (handle, some address)) true else none
    ]
  ]

abbrev pub program_rounds : System → Bool → ℕ
program_rounds on_linux dumps_crashes = rounds false false
program_rounds on_windows dumps_crashes = rounds dumps_crashes true

-- The program behind the start of the crash dumper, on Windows.
sockets-exit :
    (dlopen : Text → Option Handle) (symbol : Option Handle → Option Factory)
    (dlclose : Handle → Bool) (engine_init : ℕ → Bool) (dumper : Dumper) (error : ℕ)
    → let p = dumping on_windows dlopen symbol dlclose engine_init dumper in
      let rest = init_modules on_windows dlopen symbol dlclose engine_init in
      events_of (
        (init_socket on_windows error p >>= rest)
        >>= exit on_windows dlopen symbol dlclose engine_init (rounds (is_dumping dumper) true))
      ≡ (if error == 0
          then nested_events on_windows dlopen symbol dlclose engine_init dumper true
          else none)
unfolding init_socket
sockets-exit dlopen symbol dlclose engine_init dumper error = elim (Bool-cases (error == 0)) [
  | inl e ↦ rw e (exit-init_modules_from on_windows dlopen symbol dlclose engine_init dumper true)
  | inr e ↦ rw e refl
]

-- On either system, whatever the sockets, the loader, the modules and the engine answer, where the
-- callbacks can be registered: the program aborts exactly if on Windows it is to dump crashes and
-- dbghelp.dll or the function in it is missing or the sockets do not start, or a module, an interface
-- or the engine's start is missing, and otherwise its exit, which takes three rounds, and on Windows
-- one for the sockets and one for the dumps, closes the engine first, then unmounts the interface
-- that was mounted, while its module is still loaded, then closes that module, and on Windows cleans
-- up the sockets, and last, if it was to dump crashes, sets the filter of before and closes
-- dbghelp.dll.
pub exit-init_program :
    (system : System) (dlopen : Text → Option Handle) (symbol : Option Handle → Option Factory)
    (dlclose : Handle → Bool) (engine_init : ℕ → Bool) (library : DumpLibrary)
    (dumps_crashes : Bool) (error : ℕ)
    → events_of (
        init_program system dlopen symbol dlclose engine_init library dumps_crashes error start
        >>= exit system dlopen symbol dlclose engine_init (program_rounds system dumps_crashes))
      ≡ program_events system dlopen symbol dlclose engine_init library dumps_crashes error
unfolding init_program init_crash_dumper init_socket CrashDumper.create
exit-init_program on_linux dlopen symbol dlclose engine_init library dumps_crashes error =
    exit-init_modules_from on_linux dlopen symbol dlclose engine_init none false
exit-init_program on_windows dlopen symbol dlclose engine_init library false error =
    sockets-exit dlopen symbol dlclose engine_init none error
exit-init_program on_windows dlopen symbol dlclose engine_init library true error =
    elim (Option-cases library.module_handle) [
      | inl e ↦ rw e refl
      | inr (handle, e) ↦ elim (Option-cases (library.write_dump_address handle)) [
        | inl f ↦ rw (e, f) refl
        | inr (address, f) ↦
            rw (e, f)
              (sockets-exit dlopen symbol dlclose engine_init (some (handle, some address)) error)
      ]
    ]
