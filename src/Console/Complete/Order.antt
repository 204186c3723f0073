-- ===== src/Console/Complete/Order.antt =====
-- The order of texts, byte by byte, as `std::sort` has it for what the presenter finds.
use rehlds_m.Base.{
  starts_with, ◌≡◌, refl, Bool, true, false, ◌||◌, ◌&&◌, ltb, ◌==◌, List, [], ◌∷◌, Text, arith,
}
use rehlds_m.Console.Complete.{common_prefix}

abbrev pub text_le : Text → Text → Bool
text_le [] t = true
text_le (a ∷ s) [] = false
text_le (a ∷ s) (b ∷ t) = ltb a b || (a == b && text_le s t)

abbrev pub AreSorted : List Text → Type 0
AreSorted [] = Unit {0}
AreSorted (s ∷ []) = Unit {0}
AreSorted (s ∷ t ∷ ss) = (text_le s t ≡ true) × AreSorted (t ∷ ss)

abbrev pub AllStart : Text → List Text → Type 0
AllStart p [] = Unit {0}
AllStart p (s ∷ ss) = (starts_with p s ≡ true) × AllStart p ss

pub text_le_refl : (s : Text) → text_le s s ≡ true
text_le_refl [] = refl
text_le_refl (a ∷ s) = ground (arith, text_le_refl s)

pub text_le_trans : (s t u : Text) → text_le s t ≡ true → text_le t u ≡ true → text_le s u ≡ true
text_le_trans [] t u h k = refl
text_le_trans (a ∷ s) [] u h k = absurd (ground arith)
text_le_trans (a ∷ s) (b ∷ t) [] h k = absurd (ground arith)
text_le_trans (a ∷ s) (b ∷ t) (c ∷ u) h k = ground (arith, text_le_trans s t u)

-- What is between two texts starts with what these have in common.
pub between :
    (s t u : Text)
    → text_le s t ≡ true
    → text_le t u ≡ true
    → starts_with (common_prefix s u) t ≡ true
unfolding common_prefix
between [] t u h k = refl
between (a ∷ s) t [] h k = refl
between (a ∷ s) [] (c ∷ u) h k = absurd (ground arith)
between (a ∷ s) (b ∷ t) (c ∷ u) h k = ground (arith, between s t u)

pub starts_with-common_prefix :
    (p s t : Text)
    → starts_with p s ≡ true
    → starts_with p t ≡ true
    → starts_with p (common_prefix s t) ≡ true
unfolding common_prefix
starts_with-common_prefix [] s t h k = refl
starts_with-common_prefix (a ∷ p) [] t h k = absurd (ground arith)
starts_with-common_prefix (a ∷ p) (b ∷ s) [] h k = absurd (ground arith)
starts_with-common_prefix (a ∷ p) (b ∷ s) (c ∷ t) h k =
    ground (arith, starts_with-common_prefix p s t)
