-- ===== src/Init/Tests.antt =====
-- The theorems on starting up at concrete arguments.
use rehlds_m.Base.{◌≡◌, refl, true, false, none, [], ◌∷◌, Text}
use rehlds_m.Base.Int.{pos}
use rehlds_m.Stringpy.Example.{ascii}
use rehlds_m.File.{Disk, Stream}
use rehlds_m.Logger.{log_init_console}
use rehlds_m.CmdLine.{
  contains, find_argument_pos, get_argument_option, remove, push_front, push_back,
}
use rehlds_m.CmdLineProcessor.{pidfile_of, process}
use rehlds_m.ServerLoop.{ServerLoop, not_set, paced, run_pace, sleep_by_number}
use rehlds_m.Init.{condebug_arg, startup, init_server_loop, get_argument_option_as}
use rehlds_m.Init.Pingboost.{run_pace-init_server_loop}

abbrev blank : Disk
blank path = none

abbrev broken : Stream
broken = record {
  opens = false;
  translates = false;
  told = none;
  delivered = 0;
  bad = false;
  closes = true;
}

-- Only the log is to be cleared.
abbrev clearing_args : Text
clearing_args =
    (b'+' ∷ b'c' ∷ b'o' ∷ b'n' ∷ b'c' ∷ b'l' ∷ b'e' ∷ b'a' ∷ b'r' ∷ b'l' ∷ b'o' ∷ b'g' ∷ [])

abbrev log_name : Text
log_name = (b'q' ∷ b'c' ∷ b'o' ∷ b'n' ∷ b's' ∷ b'o' ∷ b'l' ∷ b'e' ∷ b'.' ∷ b'l' ∷ b'o' ∷ b'g' ∷ [])

no_pidfile :
    pidfile_of (startup ascii false true broken broken (b'7' ∷ []) blank clearing_args).args ≡ none
unfolding startup process contains find_argument_pos get_argument_option remove push_front push_back
    log_init_console
no_pidfile = refl

no_condebug : contains clearing_args condebug_arg ≡ false
unfolding contains
no_condebug = refl

abbrev fresh_loop : ServerLoop
fresh_loop = record {
  pingboost_level = not_set;
  target_fps_ = pos 0;
  status = record { fps = 0; num_players = 0; max_players = 0; current_map = [] };
  task_queue = record { queue = []; sleepers = [] };
  input_queue = record { queue = []; sleepers = [] };
  listeners = record { listeners = []; next_handle = 0 };
}

abbrev fps_args : Text
fps_args =
    (b'x' ∷ b' ' ∷ b'-' ∷ b't' ∷ b'a' ∷ b'r' ∷ b'g' ∷ b'e' ∷ b't' ∷ b'f' ∷ b'p' ∷ b's' ∷ b' ' ∷ b'2'
      ∷ b'5' ∷ b'0' ∷ [])

run_pace-init_server_loop_example :
    run_pace sleep_by_number (init_server_loop fps_args fresh_loop) ≡ paced 250
unfolding get_argument_option_as find_argument_pos get_argument_option
run_pace-init_server_loop_example = run_pace-init_server_loop sleep_by_number fps_args fresh_loop
