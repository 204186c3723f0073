-- ===== src/Init/Modules/Tests.antt =====
-- The exit at two concrete modules, on Windows, and what the server gets of the engine, on Linux.
use rehlds_m.Base.{ℕ, refl, ◌==◌, ◌+◌, ◌≡◌, true, false, Option, none, some, [], ◌∷◌, Text}
use rehlds_m.Interface.{succeeded}
use rehlds_m.ServerLoop.Sleep.{on_linux, on_windows}
use rehlds_m.ModuleWrapper.{ModuleWrapper, Handle, Factory}
use rehlds_m.CrashDumper.{DumpLibrary}
use rehlds_m.Init.Modules.Engine.{engine_interfaces}
use rehlds_m.Init.Modules.Cached.{engine_interfaces-init_program}
use rehlds_m.Init.Modules.{
  Program, cleaned_up, filtered, loaded, mounted, unmounted, closed, start, ◌>>=◌, init_program,
  exit,
}
use rehlds_m.Init.Modules.Shutdown.{events_of, exit-init_program}

-- The first bytes of the file names tell the two apart.
abbrev dlopen : Text → Option Handle
dlopen [] = none
dlopen (c ∷ name) = some c

abbrev symbol : Option Handle → Option Factory
symbol none = none
symbol (some handle) = some (λ name. (some (handle + 1000), succeeded))

abbrev dbghelp : DumpLibrary
dbghelp = record { module_handle = some 9; write_dump_address = λ handle. some (handle + 20) }

exit-init_program_example :
    events_of (
      init_program on_windows dlopen symbol (λ handle. true) (λ api. true) dbghelp true 0 start
      >>= exit on_windows dlopen symbol (λ handle. true) (λ api. true) 5)
    ≡ some (
        loaded 9
        ∷ filtered (some 1)
        ∷ loaded b'F'
        ∷ mounted 1070
        ∷ loaded b's'
        ∷ closed b's' true
        ∷ unmounted 1070
        ∷ closed b'F' true
        ∷ cleaned_up
        ∷ filtered none
        ∷ closed 9 true
        ∷ [])
exit-init_program_example =
    exit-init_program on_windows dlopen symbol (λ handle. true) (λ api. true) dbghelp true 0

-- The two modules there get one handle.
abbrev opens_linux : Text → Option Handle
opens_linux name = some 5

-- The engine accepts the interface 1005 that it made first; later it would make none.
abbrev makes_none : Option Handle → Option Factory
makes_none handle = none

abbrev or_start : Option Program → Program
or_start none = start
or_start (some p) = p

unfoldable after_init : Program
unfolding init_program
after_init = or_start (
    init_program on_linux opens_linux symbol (λ handle. true) (λ api. api == 1005) dbghelp false 0
      start)

engine_interfaces-init_program_example :
    ((1005 == 1005) ≡ true)
    × (got : Option ℕ) × (w : ModuleWrapper) × (engine_interfaces makes_none
          (λ interface. some 7)
          after_init
        ≡ some (got, 1005, w))
unfolding after_init init_program
engine_interfaces-init_program_example =
    engine_interfaces-init_program on_linux opens_linux symbol makes_none (λ handle. true)
      (λ api. api == 1005) (λ interface. some 7) dbghelp false 0 after_init 5 1005 refl refl refl
