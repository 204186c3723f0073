-- ===== src/ObjectList/Cursor.antt =====
-- What an iteration over a list of objects promises: the objects that it has passed, and those
-- that it will still give.
use rehlds_m.Base.{ℕ, Bool, true, false, ◌||◌, if◌then◌else◌, ◌==◌, List, [], ◌∷◌, ◌++◌}
use rehlds_m.ObjectList.{null}

pub record Cursor : Type 0 where
  pub passed : List ℕ
  pub pending : List ℕ

pub data Op : Type 0 where
  inits firsts nexts removes_head : Op
  adds adds_tail adds_head removes looks_for : ℕ → Op
  clears : Bool → Op

pub data Reply : Type 0 where
  nothing : Reply
  flag : Bool → Reply
  pointer : ℕ → Reply
  freed : List ℕ → Reply

abbrev pub mem : ℕ → List ℕ → Bool
mem o [] = false
mem o (x ∷ xs) = x == o || mem o xs

abbrev pub erase_first : ℕ → List ℕ → List ℕ
erase_first o [] = []
erase_first o (x ∷ xs) = if x == o then xs else x ∷ erase_first o xs

-- The objects before the first occurrence, and those from it on.
abbrev pub before : ℕ → List ℕ → List ℕ
before o [] = []
before o (x ∷ xs) = if x == o then [] else x ∷ before o xs

abbrev pub from : ℕ → List ℕ → List ℕ
from o [] = []
from o (x ∷ xs) = if x == o then x ∷ xs else from o xs

abbrev pub restart : List ℕ → Reply × Cursor
restart [] = (pointer null, record { passed = []; pending = [] })
restart (x ∷ xs) = (pointer x, record { passed = x ∷ []; pending = xs })

abbrev pub advance : List ℕ → List ℕ → Reply × Cursor
advance v [] = (pointer null, record { passed = v; pending = [] })
advance v (x ∷ p) = (pointer x, record { passed = v ++ (x ∷ []); pending = p })

abbrev pub put_head : ℕ → List ℕ → List ℕ → Cursor
put_head o [] p = record { passed = []; pending = o ∷ p }
put_head o (x ∷ v) p = record { passed = o ∷ x ∷ v; pending = p }

abbrev pub drop_head : List ℕ → List ℕ → Reply × Cursor
drop_head [] [] = (pointer null, record { passed = []; pending = [] })
drop_head [] (x ∷ p) = (pointer x, record { passed = []; pending = p })
drop_head (x ∷ v) p = (pointer x, record { passed = v; pending = p })

unfoldable pub cursor_step : Cursor → Op → Reply × Cursor
cursor_step c inits = (nothing, record { passed = []; pending = [] })
cursor_step c firsts = restart (c.passed ++ c.pending)
cursor_step c nexts = advance c.passed c.pending
cursor_step c removes_head = drop_head c.passed c.pending
cursor_step c (adds o) = (flag true, record c { pending = c.pending ++ (o ∷ []) })
cursor_step c (adds_tail o) = (flag true, record c { pending = c.pending ++ (o ∷ []) })
cursor_step c (adds_head o) = (flag true, put_head o c.passed c.pending)
cursor_step c (removes o) =
    if mem o c.passed
    then (flag true, record c { passed = erase_first o c.passed })
    else if mem o c.pending
    then (flag true, record c { pending = erase_first o c.pending })
    else (flag false, c)
cursor_step c (looks_for o) =
    if mem o (c.passed ++ c.pending)
    then (
      flag true,
      record {
        passed = before o (c.passed ++ c.pending);
        pending = from o (c.passed ++ c.pending);
      },
    )
    else (flag false, c)
cursor_step c (clears free) =
    (freed (if free then c.passed ++ c.pending else []), record { passed = []; pending = [] })
