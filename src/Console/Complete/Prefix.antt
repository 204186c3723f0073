-- ===== src/Console/Complete/Prefix.antt =====
-- The common part of the first and the last of sorted commands.
use rehlds_m.Base.{starts_with, ◌≡◌, true, List, [], ◌∷◌, last_or, Text}
use rehlds_m.Console.Complete.{common_prefix, find_common_command_prefix}
use rehlds_m.Console.Complete.Order.{
  text_le, AreSorted, AllStart, text_le_refl, text_le_trans, between, starts_with-common_prefix,
}

text_le-last : (s : Text) (ss : List Text) → AreSorted (s ∷ ss) → text_le s (last_or ss s) ≡ true
text_le-last s [] h = text_le_refl s
text_le-last s (t ∷ ss) h = text_le_trans s t (last_or ss t) h.0 (text_le-last t ss h.1)

AllStart-sorted :
    (low s : Text) (ss : List Text)
    → text_le low s ≡ true
    → AreSorted (s ∷ ss)
    → AllStart (common_prefix low (last_or ss s)) (s ∷ ss)
AllStart-sorted low s [] h k = (between low s s h (text_le_refl s), tt)
AllStart-sorted low s (t ∷ ss) h k = (
  between low s (last_or ss t) h (text_le-last s (t ∷ ss) k),
  AllStart-sorted low t ss (text_le_trans low s t h k.0) k.1,
)

AllStart-last :
    (p s : Text) (ss : List Text) → AllStart p (s ∷ ss) → starts_with p (last_or ss s) ≡ true
AllStart-last p s [] h = h.0
AllStart-last p s (t ∷ ss) h = AllStart-last p t ss h.1

-- For sorted commands, what is found is the longest common prefix of all of them: each starts with
-- it, and it starts with any other text that each starts with.
pub find_common_command_prefix_greatest :
    (command : Text) (commands : List Text)
    → AreSorted (command ∷ commands)
    → let found = find_common_command_prefix (command ∷ commands) in
      AllStart found (command ∷ commands)
      × ((p : Text) → AllStart p (command ∷ commands) → starts_with p found ≡ true)
unfolding find_common_command_prefix
find_common_command_prefix_greatest command commands h = (
  AllStart-sorted command command commands (text_le_refl command) h,
  λ p k.
      starts_with-common_prefix p command (last_or commands command) k.0
        (AllStart-last p command commands k),
)
