-- ===== src/TerminalSettings.antt =====
-- libs/view/include/view/linux/terminal_settings.hpp: `View::ScopedTerminalSettings`, which switches
-- the terminal to single keys for a scope. The functions of the system are parameters; what is
-- logged of signals and what is logged of the terminal are two lists.
pub mod Restore
mod Tests
use Prim.Native.Nat.{bit_and}
use rehlds_m.Base.{ℕ, Bool, true, false, if◌then◌else◌, Option, none, some, List, [], ◌∷◌, ◌++◌}
use rehlds_m.Signal.{Posix, SignalLog, block_signals, unblock_signals}

-- `termios`: the local flags, two of the control characters, and the rest.
pub record Termios : Type 0 where
  pub c_lflag : ℕ
  pub vmin : ℕ
  pub vtime : ℕ
  pub others : List ℕ

pub data TerminalLog : Type 0 where
  get_failed set_failed restore_failed : TerminalLog

-- The functions get the attributes that the terminal has. `tcgetattr` gives none where it fails,
-- and `tcsetattr`, which gets the wanted ones first, its success and those the terminal has then.
pub record Tty : Type 0 where
  pub isatty : Bool
  pub tcgetattr : Termios → Option Termios
  pub tcsetattr : Termios → Termios → Bool × Termios

abbrev pub zeroed : Termios
zeroed = record { c_lflag = 0; vmin = 0; vtime = 0; others = [] }

abbrev pub terminal_signals : List ℕ
terminal_signals = 21 ∷ 22 ∷ []

-- All bits of a `tcflag_t` but ICANON, 2, and ECHO, 8.
abbrev pub kept_flags : ℕ
kept_flags = 4294967285

abbrev pub value_or_zeroed : Option Termios → Termios
value_or_zeroed none = zeroed
value_or_zeroed (some attributes) = attributes

abbrev pub get_log : Option Termios → List TerminalLog
get_log none = get_failed ∷ []
get_log (some attributes) = []

abbrev pub modify : Termios → Termios
modify attributes = record attributes {
  c_lflag = bit_and attributes.c_lflag kept_flags;
  vmin = 1;
  vtime = 0;
}

pub record ScopedTerminalSettings : Type 0 where
  pub is_stdin_terminal : Bool
  pub original_attributes : Termios
  pub modified_attributes : Termios

-- The terminal, the signal mask, and what was logged.
pub record World (SigSet : Type 0) : Type 0 where
  pub attributes : Termios
  pub mask : SigSet
  pub signal_log : List SignalLog
  pub terminal_log : List TerminalLog

module _ {SigSet : Type 0} (posix : Posix SigSet) (initial : SigSet) (tty : Tty) where
  -- A body with the two signals blocked.
  abbrev pub with_blocked : (World SigSet → World SigSet) → World SigSet → World SigSet
  with_blocked body w =
      let (b, inside, log) = block_signals posix true initial terminal_signals w.mask in
      let w' = body (record w { mask = inside; signal_log = w.signal_log ++ log }) in
      let (outside, more) = unblock_signals posix true b w'.mask in
      record w' { mask = outside; signal_log = w'.signal_log ++ more }

  -- The constructor, in the block of the signals.
  abbrev pub set_attributes : World SigSet → World SigSet
  set_attributes w =
      let got = tty.tcgetattr w.attributes in
      let (done, after) = tty.tcsetattr (modify (value_or_zeroed got)) w.attributes in
      record w {
        attributes = after;
        terminal_log = w.terminal_log ++ get_log got ++ (if done then [] else set_failed ∷ []);
      }

  unfoldable pub construct : World SigSet → ScopedTerminalSettings × World SigSet
  unfolding block_signals unblock_signals
  construct w =
      let got = value_or_zeroed (tty.tcgetattr w.attributes) in
      let settings : ScopedTerminalSettings = record {
        is_stdin_terminal = tty.isatty;
        original_attributes = if tty.isatty then got else zeroed;
        modified_attributes = if tty.isatty then modify got else zeroed;
      } in
      (settings, with_blocked (λ w'. if tty.isatty then set_attributes w' else w') w)

  abbrev pub restore_attributes : Termios → World SigSet → World SigSet
  restore_attributes original w =
      let (done, after) = tty.tcsetattr original w.attributes in
      record w {
        attributes = after;
        terminal_log = w.terminal_log ++ (if done then [] else restore_failed ∷ []);
      }

  unfoldable pub destroy : ScopedTerminalSettings → World SigSet → World SigSet
  unfolding block_signals unblock_signals
  destroy settings w =
      let restored = with_blocked (restore_attributes settings.original_attributes) w in
      if settings.is_stdin_terminal then restored else w
