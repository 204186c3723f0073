-- ===== src/TtyRedirect.antt =====
-- libs/view/include/view/linux/tty_redirect.hpp: `View::ScopedTtyRedirect`, which sends the standard
-- output to the terminal for a scope. A stream buffer is its number; the functions of the system
-- are parameters, and the buffering is left out.
pub mod Scope
use rehlds_m.Base.{
  ℕ, Bool, true, false, not, ◌||◌, if◌then◌else◌, Option, none, some, List, [], ◌∷◌, Text,
}

-- The name of the terminal, none for a null pointer; whether the standard input is one; and the
-- buffer of the stream that opens a path, none where it fails.
pub record TtySystem : Type 0 where
  pub ctermid : Option Text
  pub isatty : Bool
  pub opens : Text → Option ℕ

pub record ScopedTtyRedirect : Type 0 where
  pub tty : Option ℕ
  pub original_buffer : Option ℕ

abbrev pub null_device : Text
null_device = (b'/' ∷ b'd' ∷ b'e' ∷ b'v' ∷ b'/' ∷ b'n' ∷ b'u' ∷ b'l' ∷ b'l' ∷ [])

-- A name that is null or empty is none.
abbrev pub filled : Option Text → Option Text
filled none = none
filled (some []) = none
filled (some (c ∷ name)) = some (c ∷ name)

abbrev pub term_name : TtySystem → Text
term_name system = elim (filled system.ctermid) [
  | none ↦ null_device
  | some name ↦ if system.isatty then name else null_device
]

-- The constructor: the buffer of the standard output that was set comes second, and the path that
-- could not be opened is logged.
unfoldable pub redirect : TtySystem → ℕ → ScopedTtyRedirect × ℕ × List Text
redirect system cout = elim (system.opens (term_name system)) [
  | none ↦ (record { tty = none; original_buffer = none }, cout, term_name system ∷ [])
  | some buffer ↦ (record { tty = some buffer; original_buffer = some cout }, buffer, [])
]

unfoldable pub restore : ScopedTtyRedirect → ℕ → ℕ
restore scope cout = elim scope.original_buffer [ none ↦ cout | some buffer ↦ buffer ]
