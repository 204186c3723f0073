-- ===== src/ObjectList/Walk.antt =====
-- A whole iteration: `first`, then `next` to the end.
use rehlds_m.Base.{ℕ, zero, suc, ◌≡◌, refl, ap, ◌∙◌, List, [], ◌∷◌, ◌++◌, length}
use rehlds_m.ObjectList.{ObjectList, null}
use rehlds_m.ObjectList.Cursor.{Op, Reply, pointer, firsts, nexts, cursor_step, restart}
use rehlds_m.ObjectList.Refine.{InRange, run, run-cursor_run, cursor_run, whole}

abbrev pub calls : ℕ → List Op
calls zero = []
calls (suc n) = nexts ∷ calls n

abbrev pub pointers : List ℕ → List Reply
pointers [] = []
pointers (o ∷ os) = pointer o ∷ pointers os

cursor_walk :
    (v p : List ℕ)
    → cursor_run (record { passed = v; pending = p }) (calls (suc (length p)))
      ≡ pointers p ++ (pointer null ∷ [])
unfolding cursor_run cursor_step
cursor_walk v [] = refl
cursor_walk v (x ∷ p) = ap (λ r. pointer x ∷ r) (cursor_walk (v ++ (x ∷ [])) p)

restart_walk :
    (xs : List ℕ)
    → (restart xs).0 ∷ cursor_run (restart xs).1 (calls (length xs))
      ≡ pointers xs ++ (pointer null ∷ [])
unfolding cursor_run
restart_walk [] = refl
restart_walk (x ∷ xs) = ap (λ r. pointer x ∷ r) (cursor_walk (x ∷ []) xs)

restarted :
    (v p xs : List ℕ)
    → v ++ p ≡ xs
    → cursor_run (record { passed = v; pending = p }) (firsts ∷ calls (length xs))
      ≡ pointers xs ++ (pointer null ∷ [])
unfolding cursor_run cursor_step
restarted v p xs e =
    ap (λ q. (restart q).0 ∷ cursor_run (restart q).1 (calls (length xs))) e ∙ restart_walk xs

-- `first`, followed by `next` as often as there are objects, gives every object once, in order, and
-- then the null pointer; wherever an iteration stood before.
pub run-walk :
    (l : ObjectList)
    → InRange l
    → run l (firsts ∷ calls (length l.container)) ≡ pointers l.container ++ (pointer null ∷ [])
run-walk l r =
    run-cursor_run (firsts ∷ calls (length l.container)) l r ∙ restarted _ _ l.container (whole l)
