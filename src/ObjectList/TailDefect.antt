-- ===== src/ObjectList/TailDefect.antt =====
-- `remove_tail` steps the iteration back where the removed object was still pending, and does not
-- where it had been passed: it compares the size less one with the number of passed objects.
use rehlds_m.Base.{
  ℕ, zero, suc, ◌+◌, ◌-◌, ◌<◌, ◌≡◌, refl, List, [], ◌∷◌, length, length-append, get_or, drop_last,
  arith,
}
use rehlds_m.ObjectList.{ObjectList, null, next, add_tail, remove_tail}
use rehlds_m.ObjectList.Refine.{InRange}

length-drop_last : (xs : List ℕ) → 0 < length xs → length (drop_last xs) + 1 ≡ length xs
length-drop_last [] h = absurd (omega arith)
length-drop_last (x ∷ []) h = omega arith
length-drop_last (x ∷ y ∷ xs) h = omega (arith, length-drop_last (y ∷ xs) (omega arith))

get_or-drop_last :
    (xs : List ℕ) (i : ℕ) → suc i < length xs → get_or (drop_last xs) i null ≡ get_or xs i null
get_or-drop_last [] i h = refl
get_or-drop_last (x ∷ []) i h = absurd (omega arith)
get_or-drop_last (x ∷ y ∷ xs) zero h = refl
get_or-drop_last (x ∷ y ∷ xs) (suc i) h = get_or-drop_last (y ∷ xs) i (omega arith)

-- With one object pending behind some that were passed, `remove_tail` makes `next` give the object
-- passed last once more.
pub next-remove_tail_pending :
    (l : ObjectList)
    → 0 < l.current
    → l.current + 1 ≡ length l.container
    → (next (remove_tail l).1).0 ≡ get_or l.container (l.current - 1) null
unfolding next remove_tail
next-remove_tail_pending l h e =
    ground (arith, length-drop_last l.container, get_or-drop_last l.container (l.current - 1))

-- With all objects passed, `remove_tail` leaves the iteration out of range, and `next` then passes
-- over the object that is added next.
pub next-remove_tail_passed :
    (l : ObjectList) (o : ℕ)
    → 0 < length l.container
    → l.current ≡ length l.container
    → let l' = (remove_tail l).1 in (¬ InRange l') × ((next (add_tail l' o).1).0 ≡ null)
unfolding next remove_tail add_tail
next-remove_tail_passed l o h e = (
  ground (arith, length-drop_last l.container),
  ground (arith, length-drop_last l.container, length-append (drop_last l.container) (o ∷ [])),
)
