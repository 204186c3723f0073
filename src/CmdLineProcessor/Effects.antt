-- ===== src/CmdLineProcessor/Effects.antt =====
-- What processing the options does to the arguments and to the files.
use rehlds_m.Base.{
  ◌≡◌, ◌≢◌, ◌⊎◌, refl, sym, ap, ◌∙◌, inl, inr, Bool, true, false, if◌then◌else◌, Option,
  Option-cases, none, some, [], ◌∷◌, ◌++◌, Text,
}
use rehlds_m.Stringpy.{Stringpy, newline}
use rehlds_m.File.{Stream, try_file_write}
use rehlds_m.File.Laws.{file_write_frame}
use rehlds_m.CmdLine.{contains}
use rehlds_m.CmdLine.Remove.{contains-remove}
use rehlds_m.CmdLineProcessor.{
  argument_option, pidfile_name, Setup, condebug_name, conclearlog_name, is_nil, write, pidfile_of,
  write_pid, steam_handler, console_handler, target_fps_handler, condebug_handler,
  conclearlog_handler, pidfile_handler, ignoresigint_handler, nominidumps_handler, handle_each,
  handlers, process,
}

write_frame :
    (io : Stream) (path content : Text) (s : Setup) (other : Text)
    → other ≢ path
    → (write io path content s).disk other ≡ s.disk other
unfolding try_file_write
write_frame io path content s other ne = (file_write_frame io s.disk path content false).0 other ne

if_disk :
    (b : Bool) (x y : Setup) (other : Text) (o : Option Text)
    → x.disk other ≡ o
    → y.disk other ≡ o
    → (if b then x else y).disk other ≡ o
if_disk true x y other o p q = p
if_disk false x y other o p q = q

-- Files that a cleared log leaves alone.
abbrev pub IsOther : Text → Text → Type 0
IsOther logfile other = (is_nil logfile ≡ true) ⊎ (other ≢ logfile)

conclearlog_handler_frame :
    (io : Stream) (logfile : Text) (s : Setup) (other : Text)
    → IsOther logfile other
    → (conclearlog_handler io logfile s).disk other ≡ s.disk other
unfolding conclearlog_handler
conclearlog_handler_frame io logfile s other (inl e) = rw (e, conclearlog_handler) refl
conclearlog_handler_frame io logfile s other (inr ne) =
    if_disk (is_nil logfile) s _ other (s.disk other) refl (
      if_disk (contains s.args conclearlog_name) (write io logfile [] s) s other (s.disk other)
        (write_frame io logfile [] s other ne) refl)

if_args : (b : Bool) (x y : Setup) → x.args ≡ y.args → (if b then x else y).args ≡ y.args
if_args true x y e = e
if_args false x y e = refl

conclearlog_handler-args :
    (io : Stream) (logfile : Text) (s : Setup) → (conclearlog_handler io logfile s).args ≡ s.args
unfolding conclearlog_handler
conclearlog_handler-args io logfile s =
    let clears = if contains s.args conclearlog_name then write io logfile [] s else s in
    let same : clears.args ≡ s.args =
      if_args (contains s.args conclearlog_name) (write io logfile [] s) s refl in
    if_args (is_nil logfile) s clears (sym same) ∙ same

write_pid-args :
    (io : Stream) (process_id : Text) (o : Option Text) (s : Setup)
    → (write_pid io process_id o s).args ≡ s.args
write_pid-args io process_id none s = refl
write_pid-args io process_id (some path) s = refl

write_pid_frame :
    (io : Stream) (process_id : Text) (o : Option Text) (s : Setup) (other : Text)
    → some other ≢ o
    → (write_pid io process_id o s).disk other ≡ s.disk other
write_pid_frame io process_id none s other ne = refl
write_pid_frame io process_id (some path) s other ne =
    write_frame io path (process_id ++ (newline ∷ [])) s other (λ e. ne (ap some e))

-- No process number is written to a file without a name.
some_if_named-nil : (path : Text) → (if is_nil path then none else some path) ≢ some []
some_if_named-nil [] e = cc
some_if_named-nil (c ∷ path) e = cc

pidfile_of-nil : (args : Text) → some [] ≢ pidfile_of args
pidfile_of-nil args e = elim (Option-cases (argument_option args pidfile_name)) [
  | inl q ↦ let r = rw (q, pidfile_of) at e in cc
  | inr (path, q) ↦ some_if_named-nil path (sym (rw (q, pidfile_of) at e))
]

module _ (str : Stringpy) (windows allowed : Bool) (clearing writing : Stream)
    (logfile process_id : Text) where
  abbrev pub processed : Setup → Setup
  processed = process str windows allowed clearing writing logfile process_id

  -- The state before the log is cleared: the arguments are then what they stay.
  before_clearing : Setup → Setup
  before_clearing s =
      condebug_handler
        (target_fps_handler str windows (console_handler str windows (steam_handler str windows s)))

  process-args : (s : Setup) → (processed s).args ≡ (before_clearing s).args
  unfolding process handlers handle_each before_clearing pidfile_handler ignoresigint_handler
      nominidumps_handler
  process-args s =
      let cleared = conclearlog_handler clearing logfile (before_clearing s) in
      write_pid-args writing process_id (pidfile_of cleared.args) cleared
      ∙ conclearlog_handler-args clearing logfile (before_clearing s)

  -- After the options are processed, -condebug is no longer among the arguments that the engine
  -- gets, whatever they were; and the only files that may have changed are the one that the
  -- processed arguments name for the process number and, if logging has a file, that file; nothing
  -- is written to an empty name for the process number.
  pub process_lem :
      (s : Setup)
      → (contains (processed s).args condebug_name ≡ false)
        × ((other : Text)
            → IsOther logfile other
            → some other ≢ pidfile_of (processed s).args
            → (processed s).disk other ≡ s.disk other)
        × (IsOther logfile [] → (processed s).disk [] ≡ s.disk [])
  unfolding process handlers handle_each before_clearing pidfile_handler ignoresigint_handler
      nominidumps_handler condebug_handler target_fps_handler console_handler steam_handler
  process_lem s =
      let cleared = conclearlog_handler clearing logfile (before_clearing s) in
      let same =
        process-args s ∙ sym (conclearlog_handler-args clearing logfile (before_clearing s)) in
      (
        ap (λ args. contains args condebug_name) (process-args s)
            ∙ contains-remove
                (target_fps_handler str windows
                  (console_handler str windows (steam_handler str windows s))).args
                condebug_name refl,
        (λ other h ne.
            write_pid_frame writing process_id (pidfile_of cleared.args) cleared other
              (λ e. ne (e ∙ ap pidfile_of (sym same)))
            ∙ conclearlog_handler_frame clearing logfile (before_clearing s) other h),
        (λ h.
            write_pid_frame writing process_id (pidfile_of cleared.args) cleared []
              (pidfile_of-nil cleared.args)
            ∙ conclearlog_handler_frame clearing logfile (before_clearing s) [] h),
      )
