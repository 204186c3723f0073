-- ===== src/Signal.antt =====
-- libs/util/include/util/linux/signal.hpp and libs/util/src/util/linux/signal.cpp: sets of signals,
-- the signal mask, and `Util::ScopedSignalBlocker`. The functions of the system are parameters; the
-- mask is the thread's, and the `old_set` of a change is left out: it is the mask before.
pub mod Scope
pub mod Example
mod Tests
use rehlds_m.Base.{
  ℕ, zero, suc, ◌+◌, ◌≡◌, Bool, true, false, not, ◌&&◌, ◌||◌, if◌then◌else◌, ◌==◌, Option, none,
  some, List, [], ◌∷◌, ◌++◌, Text,
}

pub data SignalErrorCode : Type 0 where
  success fault interrupted invalid_argument unknown : SignalErrorCode

-- The calls of `sigprocmask` that are made.
pub data How : Type 0 where
  sig_block sig_unblock : How

-- The system's functions: a result with an error has the number of it, none is success. The mask
-- comes last.
pub record Posix (SigSet : Type 0) : Type 0 where
  pub sigemptyset : SigSet → Option ℕ × SigSet
  pub sigaddset : SigSet → ℕ → Option ℕ × SigSet
  pub sigismember : SigSet → ℕ → Bool
  pub sigprocmask : How → SigSet → SigSet → Option ℕ × SigSet
  pub strsignal : ℕ → Option Text

-- What is logged: which call failed, with the names of its signals. The text of the error is left
-- out.
pub data SignalLog : Type 0 where
  create_failed : Text → SignalLog
  change_failed : Text → SignalLog

-- The errors of Linux.
abbrev pub eintr : ℕ
eintr = 4

abbrev pub efault : ℕ
efault = 14

abbrev pub einval : ℕ
einval = 22

-- The signals of Linux, without the one of NSIG.
abbrev pub signal_count : ℕ
signal_count = 64

abbrev pub get_error_code : ℕ → SignalErrorCode
get_error_code errno =
    if errno == efault
    then fault
    else if errno == eintr
    then interrupted
    else if errno == einval
    then invalid_argument
    else unknown

abbrev pub code_of : Option ℕ → SignalErrorCode
code_of none = success
code_of (some errno) = get_error_code errno

abbrev pub is_success : SignalErrorCode → Bool
is_success success = true
is_success fault = false
is_success interrupted = false
is_success invalid_argument = false
is_success unknown = false

-- A name behind those before it.
abbrev pub append_name : Text → Option Text → Text
append_name names none = names
append_name names (some []) = names
append_name [] (some (c ∷ name)) = c ∷ name
append_name (b ∷ names) (some (c ∷ name)) = (b ∷ names) ++ (b',' ∷ b' ' ∷ c ∷ name)

module _ {SigSet : Type 0} (posix : Posix SigSet) where
  unfoldable pub append_names : Text → List ℕ → Text
  append_names names [] = names
  append_names names (signal ∷ signals) =
      append_names (append_name names (posix.strsignal signal)) signals

  unfoldable pub get_signal_names : List ℕ → Text
  unfolding append_names
  get_signal_names signals = append_names [] signals

  -- Those of a set, from a signal on, for so many signals.
  unfoldable pub append_members : Text → SigSet → ℕ → ℕ → Text
  append_members names set signal zero = names
  append_members names set signal (suc rounds) =
      let more = append_name names (posix.strsignal signal) in
      let names' = if posix.sigismember set signal then more else names in
      append_members names' set (signal + 1) rounds

  unfoldable pub get_set_names : SigSet → Text
  unfolding append_members
  get_set_names set = append_members [] set 1 signal_count

  unfoldable pub add_signals : List ℕ → SigSet → SignalErrorCode × SigSet
  add_signals [] set = (success, set)
  add_signals (signal ∷ signals) set =
      let (result, set') = posix.sigaddset set signal in
      let rest = add_signals signals set' in
      elim result [ none ↦ rest | some errno ↦ (get_error_code errno, set') ]

  unfoldable pub create_signal_set : List ℕ → SigSet → SignalErrorCode × SigSet
  unfolding add_signals
  create_signal_set signals set =
      let (result, set') = posix.sigemptyset set in
      elim result [ none ↦ add_signals signals set' | some errno ↦ (get_error_code errno, set') ]

  -- The code, and the mask.
  unfoldable pub change_signal_mask : How → SigSet → SigSet → SignalErrorCode × SigSet
  change_signal_mask how set mask =
      let (result, mask') = posix.sigprocmask how set mask in (code_of result, mask')

  unfoldable pub try_create_signal_set : List ℕ → SigSet → Bool × SigSet × List SignalLog
  unfolding create_signal_set get_signal_names
  try_create_signal_set signals set =
      let (code, set') = create_signal_set signals set in
      (
        is_success code,
        set',
        if is_success code then [] else create_failed (get_signal_names signals) ∷ [],
      )

  unfoldable pub try_change_signal_mask : How → SigSet → SigSet → Bool × SigSet × List SignalLog
  unfolding change_signal_mask get_set_names
  try_change_signal_mask how set mask =
      let (code, mask') = change_signal_mask how set mask in
      (
        is_success code,
        mask',
        if is_success code then [] else change_failed (get_set_names set) ∷ [],
      )

  pub record ScopedSignalBlocker : Type 0 where
    pub blocked : Bool
    pub set : SigSet

  -- The constructor, over the set with which `set_` starts, and the destructor. Only whether the
  -- failures are logged depends on `LogErrors`.
  unfoldable pub block_signals :
      Bool → SigSet → List ℕ → SigSet → ScopedSignalBlocker × SigSet × List SignalLog
  unfolding try_create_signal_set try_change_signal_mask
  block_signals log_errors initial signals mask =
      let (made, set, log) = try_create_signal_set signals initial in
      let (changed, mask', more) = try_change_signal_mask sig_block set mask in
      (
        record { blocked = made && changed; set = set },
        if made then mask' else mask,
        if log_errors then (if made then log ++ more else log) else [],
      )

  unfoldable pub unblock_signals : Bool → ScopedSignalBlocker → SigSet → SigSet × List SignalLog
  unfolding try_change_signal_mask
  unblock_signals log_errors b mask =
      let (changed, mask', log) = try_change_signal_mask sig_unblock b.set mask in
      (if b.blocked then mask' else mask, if b.blocked && log_errors then log else [])
