-- ===== src/Init/Startup.antt =====
-- The files that starting up may change.
use rehlds_m.Base.{◌≡◌, ◌≢◌, ap, ◌∙◌, inl, Bool, false, if◌then◌else◌, some, [], Text}
use rehlds_m.Stringpy.{Stringpy}
use rehlds_m.File.{Disk, Stream}
use rehlds_m.CmdLine.{contains}
use rehlds_m.CmdLineProcessor.{pidfile_of, is_nil}
use rehlds_m.CmdLineProcessor.Effects.{process_lem}
use rehlds_m.Logger.Sinks.{log_init_console-sinks}
use rehlds_m.Init.{condebug_arg, init_logger, logfile_path, startup}

module _ (str : Stringpy) (windows allowed : Bool) (clearing writing : Stream)
    (process_id : Text) where
  -- Starting up without -condebug changes at most the file that the processed arguments name for
  -- the process number, whatever else is asked for, -conclearlog too.
  pub startup-contains :
      (disk : Disk) (args other : Text)
      → contains args condebug_arg ≡ false
      → some other
        ≢ pidfile_of (startup str windows allowed clearing writing process_id disk args).args
      → (startup str windows allowed clearing writing process_id disk args).disk other ≡ disk other
  unfolding startup init_logger
  startup-contains disk args other h ne =
      (process_lem str windows allowed clearing writing (init_logger windows args).settings.logfile
          process_id
          (record {
            args = args;
            disk = disk;
            log = [];
            ignores_sigint = false;
            dumps_crashes = false;
          })).1
        other
        (inl (
          ap is_nil (
            (log_init_console-sinks (contains args condebug_arg) (logfile_path windows args)).1
            ∙ ap (λ b. if b then logfile_path windows args else []) h)))
        ne
