-- ===== src/Convert.antt =====
-- libs/util/include/util/string.hpp: `Util::str::convert_to_type` for int and std::size_t, over
-- `std::from_chars` with base 10: for int an optional minus, the digits at the start, and an error
-- where there are none or where the number does not fit. What follows the digits is left alone.
pub mod Decimal
mod Tests
use rehlds_m.Base.{
  ℕ, zero, suc, ◌+◌, ◌-◌, ◌*◌, ◌^◌, ◌<◌, Bool, true, false, ◌&&◌, if◌then◌else◌, ◌==◌, ltb, leb,
  Option, none, some, List, [], ◌∷◌, Text,
}
use rehlds_m.Base.Int.{ℤ, pos, negsuc}

abbrev pub is_digit : ℕ → Bool
is_digit c = leb b'0' c && leb c b'9'

abbrev pub leading_digits : Text → Text
leading_digits [] = []
leading_digits (c ∷ s) = if is_digit c then c ∷ leading_digits s else []

abbrev pub value : ℕ → Text → ℕ
value n [] = n
value n (c ∷ s) = value (n * 10 + (c - b'0')) s

abbrev pub int_limit : ℕ
int_limit = 2 ^ 31

-- A number that fits into 32 bits.
abbrev pub fit : Bool → ℕ → Option ℤ
fit true zero = some (pos zero)
fit true (suc n) = if ltb n int_limit then some (negsuc n) else none
fit false n = if ltb n int_limit then some (pos n) else none

abbrev pub digits_value : Bool → Text → Option ℤ
digits_value negative [] = none
digits_value negative (c ∷ s) = fit negative (value 0 (c ∷ s))

unfoldable pub convert_to_type : Text → Option ℤ
convert_to_type [] = none
convert_to_type (c ∷ s) =
    if c == b'-'
    then digits_value true (leading_digits s)
    else digits_value false (leading_digits (c ∷ s))

abbrev pub size_limit : ℕ
size_limit = 2 ^ 32

abbrev pub size_value : Text → Option ℕ
size_value [] = none
size_value (c ∷ s) = if ltb (value 0 (c ∷ s)) size_limit then some (value 0 (c ∷ s)) else none

unfoldable pub convert_to_size : Text → Option ℕ
convert_to_size s = size_value (leading_digits s)
