-- ===== src/Signal/Example.antt =====
-- A concrete system: every call succeeds, and a set of signals is its test. A mask gets only the
-- signals that it can have.
use mathlib.Core.Bool.{false≢true}
use rehlds_m.Base.{
  ℕ, refl, ap, arith, Bool, true, false, Option, not, ◌&&◌, ◌||◌, ◌==◌, none, some, [], ◌∷◌,
}
use rehlds_m.Signal.{Posix, How, sig_block, sig_unblock}
use rehlds_m.Signal.Scope.{SignalLaws, is_maskable}

abbrev pub Signals : Type 0
Signals = ℕ → Bool

abbrev pub change : How → Signals → Signals → Signals
change sig_block set mask = λ s. mask s || (set s && is_maskable s)
change sig_unblock set mask = λ s. mask s && not (set s)

abbrev pub no_signals : Signals
no_signals s = false

abbrev is_error : Option ℕ → Bool
is_error none = false
is_error (some errno) = true

abbrev pub working : Posix Signals
working = record {
  sigemptyset = λ set. (none, no_signals);
  sigaddset = λ set signal. (none, λ s. (signal == s) || set s);
  sigismember = λ set s. set s;
  sigprocmask = λ how set mask. (none, change how set mask);
  strsignal = λ signal. some (b'S' ∷ []);
}

pub working_laws : SignalLaws working
working_laws = record {
  empties = λ set s e. refl;
  adds = λ set signal s e. refl;
  blocks = λ set mask s can e. ground (arith, can);
  unblocks = λ set mask s can e. refl;
  keeps = λ how set mask errno e. absurd (false≢true (ap is_error e));
}
