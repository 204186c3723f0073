-- ===== src/ConsoleCommands/Sort.antt =====
-- Sorting texts by insertion.
use mathlib.Core.List.{Perm}
use mathlib.Core.List.Perm
use rehlds_m.Base.{◌≡◌, refl, inl, inr, true, false, Bool-cases, List, [], ◌∷◌, Text, arith}
use rehlds_m.ConsoleCommands.{insert, sort}
use rehlds_m.Console.Complete.Order.{text_le, AreSorted}

text_le_total : (s t : Text) → text_le s t ≡ false → text_le t s ≡ true
text_le_total [] t h = absurd (ground arith)
text_le_total (a ∷ s) [] h = refl
text_le_total (a ∷ s) (b ∷ t) h = ground (arith, text_le_total s t)

-- Behind a text that is no later than the list's first, or than the one that is put in.
AreSorted-insert_behind :
    (low s : Text) (ts : List Text)
    → text_le low s ≡ true
    → AreSorted (low ∷ ts)
    → AreSorted (low ∷ insert s ts)
unfolding insert
AreSorted-insert_behind low s [] h k = (h, tt)
AreSorted-insert_behind low s (t ∷ ts) h k = elim (Bool-cases (text_le s t)) [
  | inl e ↦ rw (e, insert) (h, (e, k.1))
  | inr e ↦ rw (e, insert) (k.0, AreSorted-insert_behind t s ts (text_le_total s t e) k.1)
]

pub insert-AreSorted : (s : Text) (ts : List Text) → AreSorted ts → AreSorted (insert s ts)
unfolding insert
insert-AreSorted s [] k = tt
insert-AreSorted s (t ∷ ts) k = elim (Bool-cases (text_le s t)) [
  | inl e ↦ rw (e, insert) (e, k)
  | inr e ↦ rw (e, insert) (AreSorted-insert_behind t s ts (text_le_total s t e) k)
]

pub sort-AreSorted : (ts : List Text) → AreSorted (sort ts)
unfolding sort
sort-AreSorted [] = tt
sort-AreSorted (t ∷ ts) = insert-AreSorted t (sort ts) (sort-AreSorted ts)

insert-Perm : (s : Text) (ts : List Text) → Perm (insert s ts) (s ∷ ts)
unfolding insert
insert-Perm s [] = Perm.rfl
insert-Perm s (t ∷ ts) = elim (Bool-cases (text_le s t)) [
  | inl e ↦ rw (e, insert) Perm.rfl
  | inr e ↦ rw (e, insert) (Perm.trans (Perm.cons t (insert-Perm s ts)) (Perm.swap s t ts))
]

pub sort-Perm : (ts : List Text) → Perm (sort ts) ts
unfolding sort
sort-Perm [] = Perm.rfl
sort-Perm (t ∷ ts) = Perm.trans (insert-Perm t (sort ts)) (Perm.cons t (sort-Perm ts))
