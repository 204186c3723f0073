-- ===== src/TerminalSettings/Tests.antt =====
-- The theorem at a concrete terminal.
use rehlds_m.Base.{◌≡◌, refl, sym, ap, true, false, some, [], ◌∷◌}
use rehlds_m.Signal.Example.{Signals, no_signals, working, working_laws}
use rehlds_m.TerminalSettings.{Termios, Tty, World, value_or_zeroed}
use rehlds_m.TerminalSettings.Restore.{around, around_lem}

abbrev cooked : Termios
cooked = record { c_lflag = 35387; vmin = 1; vtime = 0; others = 3 ∷ 4 ∷ [] }

abbrev tty : Tty
tty = record {
  isatty = true;
  tcgetattr = λ attributes. some attributes;
  tcsetattr = λ wanted now. (true, wanted);
}

abbrev world : World Signals
world = record { attributes = cooked; mask = no_signals; signal_log = []; terminal_log = [] }

around_lem_example :
    ((around working no_signals tty world).attributes ≡ cooked)
    × ((around working no_signals tty world).mask 2 ≡ false)
around_lem_example =
    around_lem working working_laws no_signals tty world 2
      (λ attributes got e. sym (ap value_or_zeroed e)) (λ now. refl) refl (λ set mask. refl) refl
