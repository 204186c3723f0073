-- ===== src/Init/Modules.antt =====
-- libs/core/src/core/init.cpp: `init_socket`, and `init_filesystem` and `init_engine`, which load the
-- two modules through their wrappers, with what the program does with them at its end: the callbacks of
-- `Util::at_exit`, the destruction of a wrapper among them. A program that aborts is none. The
-- singletons are those of CrashDumper, libs/common/include/common/engine/engine_wrapper.hpp and
-- libs/common/include/common/filesystem/filesystem_wrapper.hpp. What the loader of the system, the
-- modules and the engine answer are parameters.
pub mod Shutdown
pub mod Engine
pub mod Cached
mod Tests
use rehlds_m.Base.{
  ℕ, zero, suc, ◌==◌, Bool, true, false, if◌then◌else◌, Option, none, some, List, [], ◌∷◌, ◌++◌,
  Text,
}
use rehlds_m.Lifecycle.{Callbacks, at_exit, run_callbacks}
use rehlds_m.CrashDumper.{CrashDumper, DumpLibrary}
use rehlds_m.CrashDumper
use rehlds_m.ServerLoop.Sleep.{System, on_linux, on_windows}
use rehlds_m.ModuleWrapper.{
  ModuleWrapper, Handle, Factory, fresh, unload, load_or_abort, get_interface_or_abort,
}

-- What the program does with the modules and the filter of exceptions; a module is closed with the
-- success of closing it.
pub data Event : Type 0 where
  loaded : Handle → Event
  mounted : ℕ → Event
  unmounted : ℕ → Event
  closed : Handle → Bool → Event
  cleaned_up : Event
  filtered : Option ℕ → Event

-- The instances of two singletons, the variables of the crash dumper, the callbacks, and the interface that the callback of
-- `init_filesystem` captures.
pub record Program : Type 0 where
  pub filesystem : Option ModuleWrapper
  pub engine : Option ModuleWrapper
  pub crash_dumper : CrashDumper
  pub callbacks : Callbacks
  pub captured : ℕ
  pub events : List Event

abbrev pub no_crash_dumper : CrashDumper
no_crash_dumper = record {
  dbghelp = none;
  mini_dump_write_dump = none;
  previous_exception_filter = none;
  current_filter = none;
}

abbrev pub start : Program
start = record {
  filesystem = none;
  engine = none;
  crash_dumper = no_crash_dumper;
  callbacks = none;
  captured = 0;
  events = [];
}

-- The file names on each system.
abbrev pub filesystem_module : System → Text
filesystem_module on_linux =
    (b'f' ∷ b'i' ∷ b'l' ∷ b'e' ∷ b's' ∷ b'y' ∷ b's' ∷ b't' ∷ b'e' ∷ b'm' ∷ b'_' ∷ b's' ∷ b't' ∷ b'd'
      ∷ b'i' ∷ b'o' ∷ b'.' ∷ b's' ∷ b'o' ∷ [])
filesystem_module on_windows =
    (b'F' ∷ b'i' ∷ b'l' ∷ b'e' ∷ b'S' ∷ b'y' ∷ b's' ∷ b't' ∷ b'e' ∷ b'm' ∷ b'_' ∷ b'S' ∷ b't' ∷ b'd'
      ∷ b'i' ∷ b'o' ∷ b'.' ∷ b'd' ∷ b'l' ∷ b'l' ∷ [])

abbrev pub engine_module : System → Text
engine_module on_linux =
    (b'e' ∷ b'n' ∷ b'g' ∷ b'i' ∷ b'n' ∷ b'e' ∷ b'_' ∷ b'i' ∷ b'4' ∷ b'8' ∷ b'6' ∷ b'.' ∷ b's' ∷ b'o'
      ∷ [])
engine_module on_windows = (b's' ∷ b'w' ∷ b'd' ∷ b's' ∷ b'.' ∷ b'd' ∷ b'l' ∷ b'l' ∷ [])

abbrev pub filesystem_interface : Text
filesystem_interface =
    (b'V' ∷ b'F' ∷ b'i' ∷ b'l' ∷ b'e' ∷ b'S' ∷ b'y' ∷ b's' ∷ b't' ∷ b'e' ∷ b'm' ∷ b'0' ∷ b'0' ∷ b'9'
      ∷ [])

abbrev pub server_api : Text
server_api =
    (b'V' ∷ b'E' ∷ b'N' ∷ b'G' ∷ b'I' ∷ b'N' ∷ b'E' ∷ b'_' ∷ b'H' ∷ b'L' ∷ b'D' ∷ b'S' ∷ b'_' ∷ b'A'
      ∷ b'P' ∷ b'I' ∷ b'_' ∷ b'V' ∷ b'E' ∷ b'R' ∷ b'S' ∷ b'I' ∷ b'O' ∷ b'N' ∷ b'0' ∷ b'0' ∷ b'2'
      ∷ [])

-- The callbacks: the destruction of the singletons, and those of `init_filesystem` and
-- `init_socket`.
abbrev pub destroy_filesystem : ℕ
destroy_filesystem = 0

abbrev pub unmount : ℕ
unmount = 1

abbrev pub destroy_engine : ℕ
destroy_engine = 2

abbrev pub clean_up_sockets : ℕ
clean_up_sockets = 3

abbrev pub destroy_crash_dumper : ℕ
destroy_crash_dumper = 4

-- Programs that may abort.
infixl 5 ◌>>=◌
abbrev pub ◌>>=◌ : {A B : Type 0} → Option A → (A → Option B) → Option B
◌>>=◌ m f = elim m [ none ↦ none | some a ↦ f a ]

abbrev pub register : ℕ → Program → Program
register callback p = record p { callbacks = (at_exit true p.callbacks callback).1 }

abbrev pub add_event : Event → Program → Program
add_event event p = record p { events = p.events ++ (event ∷ []) }

abbrev pub wrapper_or_fresh : Option ModuleWrapper → ModuleWrapper
wrapper_or_fresh none = fresh
wrapper_or_fresh (some w) = w

abbrev pub handle_or_null : Option Handle → Handle
handle_or_null none = 0
handle_or_null (some handle) = handle

-- `get_instance` of the singletons, which are made once.
unfoldable pub filesystem_instance : Program → Program
unfolding at_exit
filesystem_instance p = elim p.filesystem [
  | some w ↦ p
  | none ↦ register destroy_filesystem (record p { filesystem = some fresh })
]

unfoldable pub engine_instance : Program → Program
unfolding at_exit
engine_instance p = elim p.engine [
  | some w ↦ p
  | none ↦ register destroy_engine (record p { engine = some fresh })
]

abbrev pub with_crash_dumper : Program → CrashDumper → Program
with_crash_dumper p d = register destroy_crash_dumper (
    add_event (filtered d.current_filter)
      (add_event (loaded (handle_or_null d.dbghelp)) (record p { crash_dumper = d })))

-- `CrashDumper::init`, which the processing of the arguments calls on Windows if they want dumps of
-- crashes, the `dumps_crashes` of CmdLineProcessor.
unfoldable pub init_crash_dumper : System → DumpLibrary → Bool → Program → Option Program
unfolding CrashDumper.create at_exit
init_crash_dumper on_linux library dumps_crashes p = some p
init_crash_dumper on_windows library dumps_crashes p =
    if dumps_crashes
    then elim (CrashDumper.create library p.crash_dumper) [
      | none ↦ none
      | some d ↦ some (with_crash_dumper p d)
    ]
    else some p

-- What the engine answers to `init`.
abbrev pub accepted : Bool → Program → Option Program
accepted true p = some p
accepted false p = none

-- The error is that of starting the sockets; Linux has nothing to start.
unfoldable pub init_socket : System → ℕ → Program → Option Program
unfolding at_exit
init_socket on_linux error p = some p
init_socket on_windows error p = if error == 0 then some (register clean_up_sockets p) else none

module _ (system : System) (dlopen : Text → Option Handle) (symbol : Option Handle → Option Factory)
    (dlclose : Handle → Bool) (engine_init : ℕ → Bool) where
  unfoldable pub init_filesystem : Program → Option Program
  unfolding filesystem_instance load_or_abort get_interface_or_abort at_exit
  init_filesystem p =
      let p1 = filesystem_instance p in
      do
        w ← load_or_abort (dlopen (filesystem_module system)) (wrapper_or_fresh p1.filesystem)
        (interface, w') ← get_interface_or_abort symbol filesystem_interface true w
        some (
            register unmount (
              add_event (mounted interface) (
                add_event (loaded (handle_or_null w.handle))
                  (record p1 { filesystem = some w'; captured = interface }))))

  unfoldable pub init_engine : Program → Option Program
  unfolding engine_instance load_or_abort get_interface_or_abort
  init_engine p =
      let p1 = engine_instance p in
      do
        w ← load_or_abort (dlopen (engine_module system)) (wrapper_or_fresh p1.engine)
        (interface, w') ← get_interface_or_abort symbol server_api true w
        accepted (engine_init interface)
            (add_event (loaded (handle_or_null w.handle)) (record p1 { engine = some w' }))

  unfoldable pub init_modules : Program → Option Program
  unfolding init_filesystem init_engine
  init_modules p = do p1 ← init_filesystem p; init_engine p1

  -- The steps of `main` that open or register something, up to the start of the engine.
  unfoldable pub init_program : DumpLibrary → Bool → ℕ → Program → Option Program
  unfolding init_crash_dumper init_socket init_modules
  init_program library dumps_crashes error p = do
    p1 ← init_crash_dumper system library dumps_crashes p
    p2 ← init_socket system error p1
    init_modules p2

  -- `ModuleWrapper::~ModuleWrapper`, with the event of a module that was loaded.
  abbrev pub close_events : Option Handle → List Event
  close_events none = []
  close_events (some handle) = closed handle (dlclose handle) ∷ []

  abbrev pub close_wrapper : Option ModuleWrapper → List Event
  close_wrapper none = []
  close_wrapper (some w) = close_events w.handle

  -- What a callback does.
  unfoldable pub call : ℕ → Program → Program
  unfolding CrashDumper.destroy
  call zero p = record p { filesystem = none; events = p.events ++ close_wrapper p.filesystem }
  call (suc zero) p = add_event (unmounted p.captured) p
  call (suc (suc zero)) p = record p { engine = none; events = p.events ++ close_wrapper p.engine }
  call (suc (suc (suc zero))) p = add_event cleaned_up p
  call (suc (suc (suc (suc zero)))) p = record p {
    crash_dumper = CrashDumper.destroy p.crash_dumper;
    events =
        p.events
        ++ (filtered (CrashDumper.destroy p.crash_dumper).current_filter
            ∷ close_events p.crash_dumper.dbghelp);
  }
  call (suc (suc (suc (suc (suc n))))) p = p

  unfoldable pub call_each : List ℕ → Program → Program
  unfolding call
  call_each [] p = p
  call_each (callback ∷ rest) p = call_each rest (call callback p)

  -- The exit of the program; none is a loop that goes on. The callbacks register nothing.
  unfoldable pub exit : ℕ → Program → Option Program
  unfolding run_callbacks call_each
  exit fuel p = do order ← run_callbacks (λ callback. []) fuel p.callbacks; some (call_each order p)
