-- ===== src/Logger/Tests.antt =====
-- Messages as they are written.
use rehlds_m.Base.{◌≡◌, refl, [], ◌∷◌, Text}
use rehlds_m.Logger.{format, error, info}

abbrev name : Text
name = b'q' ∷ []

-- "[ERROR] q" and a line feed.
format_error :
    format error name ≡ b'[' ∷ b'E' ∷ b'R' ∷ b'R' ∷ b'O' ∷ b'R' ∷ b']' ∷ b' ' ∷ b'q' ∷ 10 ∷ []
unfolding format
format_error = refl

format_info : format info name ≡ name
unfolding format
format_info = refl
