-- ===== src/Logger.antt =====
-- libs/util/include/util/logger.hpp, libs/util/src/util/logger.cpp and libs/core/src/core/exports.cpp:
-- the settings of the log, the sinks that they ask for, and the text of a message. spdlog, which
-- calls the formatter and the sinks, is a parameter of ConsoleView.
pub mod Sinks
mod Tests
use Prim.Native.Nat.{bit_and}
use rehlds_m.Base.{
  ℕ, Bool, true, false, if◌then◌else◌, ◌==◌, Option, none, some, List, [], ◌∷◌, ◌++◌, Text,
}
use rehlds_m.Stringpy.{newline}

pub data LogLevel : Type 0 where
  trace debug info warn error critical off : LogLevel

abbrev pub LogDestination : Type 0
LogDestination = ℕ

abbrev pub view : LogDestination
view = 1

abbrev pub file : LogDestination
file = 2

abbrev pub view_and_file : LogDestination
view_and_file = 3

pub record LogSettings : Type 0 where
  pub level : LogLevel
  pub flush_on : LogLevel
  pub output : LogDestination
  pub logfile : Text

abbrev pub default_settings : LogSettings
default_settings = record { level = info; flush_on = trace; output = view; logfile = [] }

pub data Sink : Type 0 where
  log_output_sink : Sink
  file_sink : Text → Sink

abbrev pub asks_for : LogDestination → LogDestination → Bool
asks_for output destination = bit_and output destination == destination

-- The logger that `log_init` makes, and the settings that it keeps.
pub record Logger : Type 0 where
  pub settings : LogSettings
  pub sinks : List Sink

unfoldable pub log_init : LogSettings → Logger
log_init settings = record {
  settings = settings;
  sinks =
      (if asks_for settings.output view then log_output_sink ∷ [] else [])
      ++ (if asks_for settings.output file then file_sink settings.logfile ∷ [] else []);
}

unfoldable pub log_init_console : Bool → Text → Logger
unfolding log_init
log_init_console con_debug logfile = log_init (
    if con_debug
    then record default_settings { logfile = logfile; output = view_and_file }
    else default_settings)

abbrev pub prefix_name : LogLevel → Option Text
prefix_name debug = some (b'D' ∷ b'E' ∷ b'B' ∷ b'U' ∷ b'G' ∷ [])
prefix_name warn = some (b'W' ∷ b'A' ∷ b'R' ∷ b'N' ∷ b'I' ∷ b'N' ∷ b'G' ∷ [])
prefix_name error = some (b'E' ∷ b'R' ∷ b'R' ∷ b'O' ∷ b'R' ∷ [])
prefix_name critical =
    some
      ((b'F' ∷ b'A' ∷ b'T' ∷ b'A' ∷ b'L' ∷ []) ++ (b' ' ∷ (b'E' ∷ b'R' ∷ b'R' ∷ b'O' ∷ b'R' ∷ [])))
prefix_name trace = none
prefix_name info = none
prefix_name off = none

abbrev pub in_brackets : Option Text → Text
in_brackets none = []
in_brackets (some name) = b'[' ∷ (name ++ (b']' ∷ b' ' ∷ []))

abbrev pub is_info : LogLevel → Bool
is_info info = true
is_info trace = false
is_info debug = false
is_info warn = false
is_info error = false
is_info critical = false
is_info off = false

-- `Formatter::format`: what is appended for a message.
unfoldable pub format : LogLevel → Text → Text
format level payload =
    in_brackets (prefix_name level) ++ (payload ++ (if is_info level then [] else newline ∷ []))

-- `Exports::print`, which the engine calls: the messages that it logs, with their level; none is
-- the null pointer.
unfoldable pub print : Option Text → List (LogLevel × Text)
print none = []
print (some []) = []
print (some (c ∷ text)) = (info, c ∷ text) ∷ []
