-- ===== src/Convert/Tests.antt =====
-- Numbers at the edge of 32 bits.
use rehlds_m.Base.{◌≡◌, refl, none, some, [], ◌∷◌, ◌++◌, Text}
use rehlds_m.Base.Int.{pos, negsuc}
use rehlds_m.Convert.{convert_to_type}
use rehlds_m.Convert.Decimal.{to_string, convert_to_type-to_string}

-- "2147483648x" is too large, and with a minus it is the least number.
abbrev edge : Text
edge = b'2' ∷ b'1' ∷ b'4' ∷ b'7' ∷ b'4' ∷ b'8' ∷ b'3' ∷ b'6' ∷ b'4' ∷ b'8' ∷ b'x' ∷ []

too_large : convert_to_type edge ≡ none
unfolding convert_to_type
too_large = refl

least : convert_to_type (b'-' ∷ edge) ≡ some (negsuc 2147483647)
unfolding convert_to_type
least = refl

convert_to_type-to_string_example :
    (convert_to_type (to_string 250 ++ (b'x' ∷ [])) ≡ some (pos 250))
    × (convert_to_type (b'-' ∷ (to_string 250 ++ (b'x' ∷ []))) ≡ some (negsuc 249))
convert_to_type-to_string_example = convert_to_type-to_string 250 (b'x' ∷ []) refl
