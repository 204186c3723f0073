-- ===== src/TerminalSettings/Restore.antt =====
-- What a scope of terminal settings leaves of the terminal and of the signal mask.
use rehlds_m.Base.{
  ℕ, ◌≡◌, refl, ap, ◌∙◌, Bool, true, false, inl, inr, Bool-cases, not, ◌&&◌, if◌then◌else◌, Option,
  none, some, arith,
}
use rehlds_m.Signal.{Posix, sig_unblock, block_signals}
use rehlds_m.Signal.Scope.{SignalLaws, is_maskable, is_in, after_scope, member-after_scope}
use rehlds_m.TerminalSettings.{
  Termios, Tty, World, zeroed, modify, value_or_zeroed, terminal_signals, construct, destroy,
}

abbrev pub is_some : Option Termios → Bool
is_some none = false
is_some (some attributes) = true

module _ {SigSet : Type 0} (posix : Posix SigSet) (initial : SigSet) (tty : Tty) where
  -- The scope of the settings, with nothing in it.
  unfoldable pub around : World SigSet → World SigSet
  unfolding construct destroy
  around w =
      let (settings, inside) = construct posix initial tty w in
      destroy posix initial tty settings inside

module _ {SigSet : Type 0} (posix : Posix SigSet) (laws : SignalLaws posix) (initial : SigSet)
    (tty : Tty) where
  -- The two calls of `tcsetattr`, for what `tcgetattr` gave.
  restored :
      (attributes : Termios) (o : Option Termios)
      → ((got : Termios) → o ≡ some got → got ≡ attributes)
      → ((now : Termios) → (tty.tcsetattr attributes now).1 ≡ attributes)
      → (tty.tcsetattr
          (value_or_zeroed o)
          (tty.tcsetattr (modify (value_or_zeroed o)) attributes).1).1
        ≡ (if is_some o
            then attributes
            else (tty.tcsetattr zeroed (tty.tcsetattr (modify zeroed) attributes).1).1)
  restored attributes none reads sets = refl
  restored attributes (some got) reads sets =
      let now = (tty.tcsetattr (modify got) attributes).1 in
      ap (λ a. (tty.tcsetattr a now).1) (reads got refl) ∙ sets now

  -- Whatever the calls for the signals come to, a signal that is not one of the two keeps its bit.
  member-after_scope-others :
      (mask : SigSet) (s : ℕ)
      → is_maskable s ≡ true
      → ((set mask' : SigSet) → (posix.sigprocmask sig_unblock set mask').0 ≡ none)
      → is_in s terminal_signals ≡ false
      → posix.sigismember (after_scope posix true initial terminal_signals mask) s
        ≡ posix.sigismember mask s
  member-after_scope-others mask s can h n =
      let left = member-after_scope posix laws true initial terminal_signals mask s can h in
      left ∙ others (block_signals posix true initial terminal_signals mask).0.blocked
    where
      others :
          (b : Bool)
          → (if b
              then posix.sigismember mask s && not (is_in s terminal_signals)
              else posix.sigismember mask s)
            ≡ posix.sigismember mask s
      others b = ground (arith, n)

  -- For signals with the documented behaviour, where the changes of the mask in the destructors work,
  -- `tcgetattr` gives the attributes there are if it gives any, and a terminal that had some
  -- attributes takes all of them back: a scope leaves the terminal the attributes that it had before,
  -- if they could be read, and otherwise what the terminal makes of zeros, modified at first and then
  -- as they are; without a terminal it changes none. Each signal that a mask can have, other than
  -- SIGTTIN and SIGTTOU, is blocked afterwards exactly if it was blocked before.
  pub around_lem :
      (w : World SigSet) (s : ℕ)
      → ((attributes got : Termios) → tty.tcgetattr attributes ≡ some got → got ≡ attributes)
      → ((now : Termios) → (tty.tcsetattr w.attributes now).1 ≡ w.attributes)
      → is_maskable s ≡ true
      → ((set mask' : SigSet) → (posix.sigprocmask sig_unblock set mask').0 ≡ none)
      → is_in s terminal_signals ≡ false
      → ((around posix initial tty w).attributes ≡ (
          if tty.isatty
          then (if is_some (tty.tcgetattr w.attributes)
              then w.attributes
              else (tty.tcsetattr zeroed (tty.tcsetattr (modify zeroed) w.attributes).1).1)
          else w.attributes))
        × (posix.sigismember (around posix initial tty w).mask s ≡ posix.sigismember w.mask s)
  unfolding around after_scope
  around_lem w s reads sets can h n = elim (Bool-cases tty.isatty) [
    | inl e ↦ rw e (
      restored w.attributes (tty.tcgetattr w.attributes) (reads w.attributes) sets,
      member-after_scope-others (after_scope posix true initial terminal_signals w.mask) s can h n
          ∙ member-after_scope-others w.mask s can h n,
    )
    | inr e ↦ rw e (refl, member-after_scope-others w.mask s can h n)
  ]
