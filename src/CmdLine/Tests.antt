-- ===== src/CmdLine/Tests.antt =====
-- The theorems on the arguments at concrete ones.
use rehlds_m.Base.{◌≡◌, refl, true, false, some, [], ◌∷◌, Text}
use rehlds_m.Stringpy.Example.{ascii, ascii_trim}
use rehlds_m.CmdLine.{push_back, get_argument_option, find_argument_pos, contains, remove}
use rehlds_m.CmdLine.Push.{get_argument_option-push_back}
use rehlds_m.CmdLine.Remove.{contains-remove}

-- "-map"
abbrev map_arg : Text
map_arg = b'-' ∷ b'm' ∷ b'a' ∷ b'p' ∷ []

-- "x -mapa y"
abbrev longer : Text
longer = b'x' ∷ b' ' ∷ b'-' ∷ b'm' ∷ b'a' ∷ b'p' ∷ b'a' ∷ b' ' ∷ b'y' ∷ []

contains-remove_example : contains (remove longer map_arg) map_arg ≡ false
contains-remove_example = contains-remove longer map_arg refl

-- The longer argument is taken out, with both spaces at its sides.
remove-longer : remove longer map_arg ≡ b'x' ∷ b'y' ∷ []
unfolding remove
remove-longer = refl

-- "-map de" in place of the longer one
get_argument_option-push_back_example :
    let text = push_back ascii longer map_arg (b'd' ∷ b'e' ∷ []) in
    get_argument_option text map_arg (find_argument_pos text map_arg) ≡ some (b'd' ∷ b'e' ∷ [])
get_argument_option-push_back_example =
    get_argument_option-push_back ascii ascii_trim longer (b'a' ∷ b'p' ∷ []) (b'e' ∷ []) true b'm'
      b'd' refl refl refl (refl, (refl, (refl, (refl, (refl, (refl, tt))))))
      (refl, (refl, (refl, (refl, (refl, (refl, tt)))))) (refl, (refl, tt))
