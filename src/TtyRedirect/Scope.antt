-- ===== src/TtyRedirect/Scope.antt =====
-- What a scope leaves of the standard output.
use rehlds_m.Base.{ℕ, ◌≡◌, refl, ap, none, some, [], ◌∷◌, false, inl, inr, Option-cases}
use rehlds_m.TtyRedirect.{TtySystem, null_device, filled, term_name, redirect, restore}

-- Whatever the system answers, the standard output has its own buffer again behind the scope.
pub restore-redirect :
    (system : TtySystem) (cout : ℕ)
    → restore (redirect system cout).0 (redirect system cout).1 ≡ cout
unfolding redirect restore
restore-redirect system cout = elim (Option-cases (system.opens (term_name system))) [
  | inl e ↦ ap (λ r. restore r.0 r.1) (redirect-none e)
  | inr (buffer, e) ↦ ap (λ r. restore r.0 r.1) (redirect-some buffer e)
]
  where
    redirect-none :
        system.opens (term_name system) ≡ none
        → redirect system cout
          ≡ (record { tty = none; original_buffer = none }, cout, term_name system ∷ [])
    redirect-none e = rw (e, redirect) refl

    redirect-some :
        (buffer : ℕ)
        → system.opens (term_name system) ≡ some buffer
        → redirect system cout
          ≡ (record { tty = some buffer; original_buffer = some cout }, buffer, [])
    redirect-some buffer e = rw (e, redirect) refl

-- Where the standard input is no terminal, only the null device is opened.
pub term_name-null_device :
    (system : TtySystem) → system.isatty ≡ false → term_name system ≡ null_device
term_name-null_device system h = elim (Option-cases (filled system.ctermid)) [
  | inl e ↦ rw (e, term_name) refl
  | inr (name, e) ↦ rw (e, h, term_name) refl
]
