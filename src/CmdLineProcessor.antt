-- ===== src/CmdLineProcessor.antt =====
-- libs/core/include/core/cmdline_processor.hpp and libs/core/src/core/cmdline_processor.cpp:
-- `Core::CmdLineProcessor`, the handlers of single options in their order. What they change beside
-- the arguments is a record. The process number and the file of the log are parameters, and so is
-- the platform.
pub mod Effects
mod Tests
use rehlds_m.Base.{
  Bool, true, false, not, if◌then◌else◌, ◌||◌, Option, none, some, List, [], ◌∷◌, ◌++◌, Text,
}
use rehlds_m.Stringpy.{Stringpy, newline}
use rehlds_m.File.{Disk, Stream, FileLog, try_file_write}
use rehlds_m.CmdLine.{
  contains, remove, push_front, push_back, find_argument_pos, get_argument_option,
}

pub record Setup : Type 0 where
  pub args : Text
  pub disk : Disk
  pub log : List FileLog
  pub ignores_sigint : Bool
  pub dumps_crashes : Bool

abbrev pub steam_arg : Text
steam_arg = (b'-' ∷ b's' ∷ b't' ∷ b'e' ∷ b'a' ∷ b'm' ∷ [])

abbrev pub console_arg : Text
console_arg = (b'-' ∷ b'c' ∷ b'o' ∷ b'n' ∷ b's' ∷ b'o' ∷ b'l' ∷ b'e' ∷ [])

abbrev pub targetfps_name : Text
targetfps_name = (b't' ∷ b'a' ∷ b'r' ∷ b'g' ∷ b'e' ∷ b't' ∷ b'f' ∷ b'p' ∷ b's' ∷ [])

abbrev pub pingboost_name : Text
pingboost_name = (b'p' ∷ b'i' ∷ b'n' ∷ b'g' ∷ b'b' ∷ b'o' ∷ b'o' ∷ b's' ∷ b't' ∷ [])

abbrev pub ticrate_arg : Text
ticrate_arg =
    (b'+' ∷ b's' ∷ b'y' ∷ b's' ∷ b'_' ∷ b't' ∷ b'i' ∷ b'c' ∷ b'r' ∷ b'a' ∷ b't' ∷ b'e' ∷ [])

abbrev pub zero_option : Text
zero_option = (b'0' ∷ [])

abbrev pub condebug_name : Text
condebug_name = (b'c' ∷ b'o' ∷ b'n' ∷ b'd' ∷ b'e' ∷ b'b' ∷ b'u' ∷ b'g' ∷ [])

abbrev pub conclearlog_name : Text
conclearlog_name = (b'c' ∷ b'o' ∷ b'n' ∷ b'c' ∷ b'l' ∷ b'e' ∷ b'a' ∷ b'r' ∷ b'l' ∷ b'o' ∷ b'g' ∷ [])

abbrev pub pidfile_name : Text
pidfile_name = (b'p' ∷ b'i' ∷ b'd' ∷ b'f' ∷ b'i' ∷ b'l' ∷ b'e' ∷ [])

abbrev pub ignoresigint_name : Text
ignoresigint_name =
    (b'i' ∷ b'g' ∷ b'n' ∷ b'o' ∷ b'r' ∷ b'e' ∷ b's' ∷ b'i' ∷ b'g' ∷ b'i' ∷ b'n' ∷ b't' ∷ [])

abbrev pub nominidumps_name : Text
nominidumps_name = (b'n' ∷ b'o' ∷ b'm' ∷ b'i' ∷ b'n' ∷ b'i' ∷ b'd' ∷ b'u' ∷ b'm' ∷ b'p' ∷ b's' ∷ [])

-- A file written, with what is logged of a failure.
abbrev pub write : Stream → Text → Text → Setup → Setup
write io path content s =
    let (done, log, disk') = try_file_write io s.disk path content false in
    record s { disk = disk'; log = s.log ++ log }

abbrev pub is_nil : Text → Bool
is_nil [] = true
is_nil (c ∷ s) = false

-- The option behind an argument, wherever it is found.
abbrev pub argument_option : Text → Text → Option Text
argument_option args arg = get_argument_option args arg (find_argument_pos args arg)

module _ (str : Stringpy) (windows : Bool) where
  unfoldable pub steam_handler : Setup → Setup
  steam_handler s = record s { args = push_front str s.args steam_arg [] }

  unfoldable pub console_handler : Setup → Setup
  console_handler s = record s {
    args = if windows then push_front str s.args console_arg [] else s.args;
  }

  unfoldable pub target_fps_handler : Setup → Setup
  target_fps_handler s = record s {
    args =
        if contains s.args targetfps_name
        then push_back str (remove s.args pingboost_name) ticrate_arg zero_option
        else s.args;
  }

  unfoldable pub nominidumps_handler : Setup → Setup
  nominidumps_handler s = record s {
    dumps_crashes =
        if windows
        then s.dumps_crashes || not (contains s.args nominidumps_name)
        else s.dumps_crashes;
  }

unfoldable pub condebug_handler : Setup → Setup
condebug_handler s = record s { args = remove s.args condebug_name }

unfoldable pub conclearlog_handler : Stream → Text → Setup → Setup
conclearlog_handler io logfile s =
    if is_nil logfile
    then s
    else if contains s.args conclearlog_name
    then write io logfile [] s
    else s

-- The file that the process number is written to.
abbrev pub pidfile_of : Text → Option Text
pidfile_of args = elim (argument_option args pidfile_name) [
  | none ↦ none
  | some path ↦ if is_nil path then none else some path
]

abbrev pub write_pid : Stream → Text → Option Text → Setup → Setup
write_pid io process_id none s = s
write_pid io process_id (some path) s = write io path (process_id ++ (newline ∷ [])) s

unfoldable pub pidfile_handler : Stream → Text → Setup → Setup
pidfile_handler io process_id s = write_pid io process_id (pidfile_of s.args) s

unfoldable pub ignoresigint_handler : Bool → Setup → Setup
ignoresigint_handler allowed s = record s {
  ignores_sigint =
      if contains s.args ignoresigint_name then s.ignores_sigint || allowed else s.ignores_sigint;
}

-- `process`, with the handlers as the constructor adds them.
module _ (str : Stringpy) (windows allowed : Bool) (clearing writing : Stream)
    (logfile process_id : Text) where
  unfoldable pub handlers : List (Setup → Setup)
  unfolding steam_handler console_handler target_fps_handler condebug_handler conclearlog_handler
      pidfile_handler ignoresigint_handler nominidumps_handler
  handlers =
      steam_handler str windows
      ∷ console_handler str windows
      ∷ target_fps_handler str windows
      ∷ condebug_handler
      ∷ conclearlog_handler clearing logfile
      ∷ pidfile_handler writing process_id
      ∷ ignoresigint_handler allowed
      ∷ nominidumps_handler str windows
      ∷ []

  unfoldable pub handle_each : List (Setup → Setup) → Setup → Setup
  handle_each [] s = s
  handle_each (handler ∷ rest) s = handle_each rest (handler s)

  unfoldable pub process : Setup → Setup
  unfolding handlers handle_each
  process s = handle_each handlers s
