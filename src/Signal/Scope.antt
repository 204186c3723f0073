-- ===== src/Signal/Scope.antt =====
-- What a scope of blocked signals leaves of the mask.
use mathlib.Core.Bool.{false≢true}
use rehlds_m.Base.{
  sym, inl, inr, ℕ, ◌≡◌, refl, ap, ◌∙◌, Bool, true, false, not, ◌&&◌, ◌||◌, if◌then◌else◌, ◌==◌,
  Option, none, some, List, [], ◌∷◌, Option-cases, arith,
}
use rehlds_m.Signal.{
  Posix, How, sig_block, sig_unblock, code_of, get_error_code, is_success, create_signal_set,
  add_signals, change_signal_mask, try_create_signal_set, try_change_signal_mask, block_signals,
  unblock_signals,
}

abbrev pub is_in : ℕ → List ℕ → Bool
is_in s [] = false
is_in s (signal ∷ signals) = (signal == s) || is_in s signals

get_error_code-fails : (errno : ℕ) → is_success (get_error_code errno) ≡ false
get_error_code-fails errno = ground arith

-- The signals that a mask can have: all but SIGKILL and SIGSTOP, which a change of the mask passes
-- over without an error, and the two that the library of the system keeps for itself.
abbrev pub is_maskable : ℕ → Bool
is_maskable s = not (s == 9 || s == 19 || s == 32 || s == 33)

-- The documented behaviour: what a successful call does to a set or, for the signals that it can
-- have, to the mask, and that a change of the mask that fails does nothing.
pub record SignalLaws {SigSet : Type 0} (posix : Posix SigSet) : Type 0 where
  pub empties :
      (set : SigSet) (s : ℕ)
      → (posix.sigemptyset set).0 ≡ none
      → posix.sigismember (posix.sigemptyset set).1 s ≡ false
  pub adds :
      (set : SigSet) (signal s : ℕ)
      → (posix.sigaddset set signal).0 ≡ none
      → posix.sigismember (posix.sigaddset set signal).1 s
        ≡ (signal == s) || posix.sigismember set s
  pub blocks :
      (set mask : SigSet) (s : ℕ)
      → is_maskable s ≡ true
      → (posix.sigprocmask sig_block set mask).0 ≡ none
      → posix.sigismember (posix.sigprocmask sig_block set mask).1 s
        ≡ posix.sigismember mask s || posix.sigismember set s
  pub unblocks :
      (set mask : SigSet) (s : ℕ)
      → is_maskable s ≡ true
      → (posix.sigprocmask sig_unblock set mask).0 ≡ none
      → posix.sigismember (posix.sigprocmask sig_unblock set mask).1 s
        ≡ posix.sigismember mask s && not (posix.sigismember set s)
  pub keeps :
      (how : How) (set mask : SigSet) (errno : ℕ)
      → (posix.sigprocmask how set mask).0 ≡ some errno
      → (posix.sigprocmask how set mask).1 ≡ mask

module _ {SigSet : Type 0} (posix : Posix SigSet) where
  -- The mask behind the scope.
  unfoldable pub after_scope : Bool → SigSet → List ℕ → SigSet → SigSet
  unfolding block_signals unblock_signals
  after_scope log_errors initial signals mask =
      let (b, mask', log) = block_signals posix log_errors initial signals mask in
      (unblock_signals posix log_errors b mask').0

module _ {SigSet : Type 0} (posix : Posix SigSet) (laws : SignalLaws posix) where
  code_of-none : (result : Option ℕ) → is_success (code_of result) ≡ true → result ≡ none
  code_of-none none e = refl
  code_of-none (some errno) e = absurd (false≢true (sym (get_error_code-fails errno) ∙ e))

  add_signals-none :
      (signal : ℕ) (signals : List ℕ) (set : SigSet)
      → (posix.sigaddset set signal).0 ≡ none
      → add_signals posix (signal ∷ signals) set
        ≡ add_signals posix signals (posix.sigaddset set signal).1
  unfolding add_signals
  add_signals-none signal signals set q = rw (q, add_signals) refl

  add_signals-some :
      (signal : ℕ) (signals : List ℕ) (set : SigSet) (errno : ℕ)
      → (posix.sigaddset set signal).0 ≡ some errno
      → is_success (add_signals posix (signal ∷ signals) set).0 ≡ false
  unfolding add_signals
  add_signals-some signal signals set errno q = rw (q, add_signals) (get_error_code-fails errno)

  -- A set that was filled has its signals, and those that it had.
  member-add_signals :
      (signals : List ℕ) (set : SigSet) (s : ℕ)
      → is_success (add_signals posix signals set).0 ≡ true
      → posix.sigismember (add_signals posix signals set).1 s
        ≡ is_in s signals || posix.sigismember set s
  unfolding add_signals
  member-add_signals [] set s e = refl
  member-add_signals (signal ∷ signals) set s e =
      elim (Option-cases (posix.sigaddset set signal).0) [
        | inl q ↦
            let same = add_signals-none signal signals set q in
            let set' = (posix.sigaddset set signal).1 in
            let ih = member-add_signals signals set' s (sym (ap (λ r. is_success r.0) same) ∙ e) in
            let more = laws.adds set signal s q in
            ap (λ r. posix.sigismember r.1 s) same ∙ ground (arith, ih, more)
        | inr (errno, q) ↦
            absurd (false≢true (sym (add_signals-some signal signals set errno q) ∙ e))
      ]

  create_signal_set-none :
      (signals : List ℕ) (set : SigSet)
      → (posix.sigemptyset set).0 ≡ none
      → create_signal_set posix signals set ≡ add_signals posix signals (posix.sigemptyset set).1
  unfolding create_signal_set add_signals
  create_signal_set-none signals set q = rw (q, create_signal_set) refl

  create_signal_set-some :
      (signals : List ℕ) (set : SigSet) (errno : ℕ)
      → (posix.sigemptyset set).0 ≡ some errno
      → is_success (create_signal_set posix signals set).0 ≡ false
  unfolding create_signal_set
  create_signal_set-some signals set errno q =
      rw (q, create_signal_set) (get_error_code-fails errno)

  -- A set that was made has exactly the signals that are named.
  member-create_signal_set :
      (signals : List ℕ) (set : SigSet) (s : ℕ)
      → is_success (create_signal_set posix signals set).0 ≡ true
      → posix.sigismember (create_signal_set posix signals set).1 s ≡ is_in s signals
  member-create_signal_set signals set s e = elim (Option-cases (posix.sigemptyset set).0) [
    | inl q ↦
        let same = create_signal_set-none signals set q in
        let filled =
          member-add_signals signals (posix.sigemptyset set).1 s
            (sym (ap (λ r. is_success r.0) same) ∙ e) in
        let nothing = laws.empties set s q in
        ap (λ r. posix.sigismember r.1 s) same ∙ ground (arith, filled, nothing)
    | inr (errno, q) ↦ absurd (false≢true (sym (create_signal_set-some signals set errno q) ∙ e))
  ]

  change_signal_mask-failed :
      (how : How) (set mask : SigSet)
      → is_success (change_signal_mask posix how set mask).0 ≡ false
      → (change_signal_mask posix how set mask).1 ≡ mask
  unfolding change_signal_mask
  change_signal_mask-failed how set mask e =
      elim (Option-cases (posix.sigprocmask how set mask).0) [
        | inl q ↦ absurd (false≢true (sym e ∙ ap (λ r. is_success (code_of r)) q))
        | inr (errno, q) ↦ laws.keeps how set mask errno q
      ]

  -- The same for any results of the two calls of the constructor.
  member-masked :
      (made changed : Bool) (signals : List ℕ) (set mask mask' : SigSet) (s : ℕ)
      → (made ≡ true → posix.sigismember set s ≡ is_in s signals)
      → (changed ≡ true
          → posix.sigismember mask' s ≡ posix.sigismember mask s || posix.sigismember set s)
      → (changed ≡ false → mask' ≡ mask)
      → ((now : SigSet)
          → posix.sigismember (posix.sigprocmask sig_unblock set now).1 s
            ≡ posix.sigismember now s && not (posix.sigismember set s))
      → let inside = if made then mask' else mask in
        posix.sigismember
          (if made && changed then (posix.sigprocmask sig_unblock set inside).1 else inside)
          s
        ≡ (if made && changed
            then posix.sigismember mask s && not (is_in s signals)
            else posix.sigismember mask s)
  member-masked false changed signals set mask mask' s members blocked same unblocked = refl
  member-masked true false signals set mask mask' s members blocked same unblocked =
      ap (λ m. posix.sigismember m s) (same refl)
  member-masked true true signals set mask mask' s members blocked same unblocked =
      let e = unblocked mask' in
      let f = blocked refl in let g = members refl in ground (arith, e, f, g)

  -- For a system with the documented behaviour, what the scope leaves of the signals that a mask can
  -- have, whatever fails in it, where the destructor's change of the mask does not: if the signals
  -- could be blocked, none of them is blocked behind the scope, those neither that were blocked
  -- before it, and all others are as they were; otherwise all are as they were.
  pub member-after_scope :
      (log_errors : Bool) (initial : SigSet) (signals : List ℕ) (mask : SigSet) (s : ℕ)
      → is_maskable s ≡ true
      → ((set mask' : SigSet) → (posix.sigprocmask sig_unblock set mask').0 ≡ none)
      → posix.sigismember (after_scope posix log_errors initial signals mask) s ≡ (
          if (block_signals posix log_errors initial signals mask).0.blocked
          then posix.sigismember mask s && not (is_in s signals)
          else posix.sigismember mask s)
  unfolding after_scope block_signals unblock_signals try_create_signal_set try_change_signal_mask
  member-after_scope log_errors initial signals mask s can h =
      let set = (create_signal_set posix signals initial).1 in
      let blocking = posix.sigprocmask sig_block set mask in
      member-masked (is_success (create_signal_set posix signals initial).0)
        (is_success (code_of blocking.0)) signals set mask blocking.1 s
        (λ m. member-create_signal_set signals initial s m)
        (λ k. laws.blocks set mask s can (code_of-none blocking.0 k))
        (λ k. change_signal_mask-failed sig_block set mask k)
        (λ mask'. laws.unblocks set mask' s can (h set mask'))
