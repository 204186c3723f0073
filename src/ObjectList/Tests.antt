-- ===== src/ObjectList/Tests.antt =====
-- Iterations over a list of objects, and the theorems at concrete lists.
use rehlds_m.Base.{◌≡◌, refl, true, List, [], ◌∷◌, arith}
use rehlds_m.ObjectList.{ObjectList, null, find_index, add_head, remove, next, contains}
use rehlds_m.ObjectList.Cursor.{Op, nexts, adds_head, removes, looks_for, flag, pointer}
use rehlds_m.ObjectList.Refine.{view, step, run, cursor_run, run-cursor_run}

-- Three objects, of which an iteration has passed the first.
abbrev three : ObjectList
three = record { container = 5 ∷ 6 ∷ 7 ∷ []; current = 1 }

abbrev script : List Op
script = removes 5 ∷ adds_head 4 ∷ nexts ∷ looks_for 6 ∷ nexts ∷ nexts ∷ nexts ∷ []

script_replies :
    run three script
    ≡ flag true ∷ flag true ∷ pointer 4 ∷ flag true ∷ pointer 6 ∷ pointer 7 ∷ pointer null ∷ []
unfolding run step remove find_index add_head next contains
script_replies = refl

run-cursor_run_example : run three script ≡ cursor_run (view three) script
run-cursor_run_example = run-cursor_run script three (omega arith)
