-- ===== src/Init.antt =====
-- libs/core/include/core/init.hpp and libs/core/src/core/init.cpp, with the order of
-- apps/hlds/src/hlds/hlds.main.cpp: how the arguments choose the log file and the loop of the
-- server. Modules has the sockets and the loading of the engine.
pub mod Startup
pub mod Pingboost
pub mod Modules
mod Tests
use rehlds_m.Base.{
  ℕ, zero, suc, Bool, true, false, not, ◌&&◌, if◌then◌else◌, ltb, Option, none, some, List, [], ◌∷◌,
  ◌++◌, Text,
}
use rehlds_m.Base.Int.{ℤ, pos, negsuc}
use rehlds_m.Stringpy.{Stringpy}
use rehlds_m.File.{Disk, Stream}
use rehlds_m.Convert.{convert_to_type}
use rehlds_m.CmdLine.{contains}
use rehlds_m.CmdLineProcessor.{Setup, is_nil, argument_option, process}
use rehlds_m.Logger.{Logger, log_init_console}
use rehlds_m.ServerLoop.Sleep.{System, on_linux, on_windows}
use rehlds_m.ServerLoop.{
  ServerLoop, PingBoostLevel, not_set, level1, level2, level3, level4, level5, target_fps,
  set_target_fps, set_pingboost_level,
}

abbrev pub logfile_name : Text
logfile_name =
    (b'q' ∷ b'c' ∷ b'o' ∷ b'n' ∷ b's' ∷ b'o' ∷ b'l' ∷ b'e' ∷ b'.' ∷ b'l' ∷ b'o' ∷ b'g' ∷ [])

abbrev pub condebug_arg : Text
condebug_arg = (b'-' ∷ b'c' ∷ b'o' ∷ b'n' ∷ b'd' ∷ b'e' ∷ b'b' ∷ b'u' ∷ b'g' ∷ [])

abbrev pub game_arg : Text
game_arg = (b'-' ∷ b'g' ∷ b'a' ∷ b'm' ∷ b'e' ∷ [])

abbrev pub targetfps_arg : Text
targetfps_arg = (b'-' ∷ b't' ∷ b'a' ∷ b'r' ∷ b'g' ∷ b'e' ∷ b't' ∷ b'f' ∷ b'p' ∷ b's' ∷ [])

abbrev pub pingboost_arg : Text
pingboost_arg = (b'-' ∷ b'p' ∷ b'i' ∷ b'n' ∷ b'g' ∷ b'b' ∷ b'o' ∷ b'o' ∷ b's' ∷ b't' ∷ [])

abbrev pub value_or {ℓ} : {A : Type ℓ} → Option A → A → A
value_or none a = a
value_or (some b) a = b

-- The log file on Linux: in the directory of the game, if one is named.
abbrev pub logfile_path : Bool → Text → Text
logfile_path windows args =
    let game_name = value_or (argument_option args game_arg) [] in
    if windows
    then logfile_name
    else if is_nil game_name
    then logfile_name
    else game_name ++ (b'/' ∷ logfile_name)

unfoldable pub init_logger : Bool → Text → Logger
init_logger windows args = log_init_console (contains args condebug_arg) (logfile_path windows args)

abbrev pub and_convert : Option Text → Option ℤ
and_convert none = none
and_convert (some text) = convert_to_type text

-- `get_argument_option_as<int>`
unfoldable pub get_argument_option_as : Text → Text → Option ℤ
unfolding convert_to_type
get_argument_option_as args arg = and_convert (argument_option args arg)

-- `std::clamp` to the levels, and the cast to the enumeration.
abbrev pub clamp_level : ℤ → PingBoostLevel
clamp_level (negsuc n) = not_set
clamp_level (pos zero) = not_set
clamp_level (pos (suc zero)) = level1
clamp_level (pos (suc (suc zero))) = level2
clamp_level (pos (suc (suc (suc zero)))) = level3
clamp_level (pos (suc (suc (suc (suc zero))))) = level4
clamp_level (pos (suc (suc (suc (suc (suc n)))))) = level5

abbrev pub is_positive : ℤ → Bool
is_positive (negsuc n) = false
is_positive (pos zero) = false
is_positive (pos (suc n)) = true

unfoldable pub init_server_loop : Text → ServerLoop → ServerLoop
unfolding get_argument_option_as set_target_fps set_pingboost_level
init_server_loop args s =
    let fps = value_or (get_argument_option_as args targetfps_arg) (pos 0) in
    let pingboost_value = value_or (get_argument_option_as args pingboost_arg) (pos 0) in
    if is_positive fps
    then set_pingboost_level (set_target_fps s fps) target_fps
    else set_pingboost_level s (clamp_level pingboost_value)

-- The first steps of `main`: the log from the arguments as they came, then the options.
module _ (str : Stringpy) (windows allowed : Bool) (clearing writing : Stream)
    (process_id : Text) where
  unfoldable pub startup : Disk → Text → Setup
  unfolding init_logger process
  startup disk args =
      process str windows allowed clearing writing (init_logger windows args).settings.logfile
        process_id
        (record {
          args = args;
          disk = disk;
          log = [];
          ignores_sigint = false;
          dumps_crashes = false;
        })

abbrev pub locale : System → Text
locale on_linux = (b'C' ∷ b'.' ∷ b'U' ∷ b'T' ∷ b'F' ∷ b'-' ∷ b'8' ∷ [])
locale on_windows = (b'.' ∷ b'U' ∷ b'T' ∷ b'F' ∷ b'-' ∷ b'8' ∷ [])

-- The locale that a warning names, if one is logged; Windows is content with the code page of the
-- console.
unfoldable pub init_locale : System → Bool → Bool → List Text
init_locale on_linux sets_locale sets_code_page =
    if not sets_locale then locale on_linux ∷ [] else []
init_locale on_windows sets_locale sets_code_page =
    if not sets_locale && not sets_code_page then locale on_windows ∷ [] else []
