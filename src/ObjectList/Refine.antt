-- ===== src/ObjectList/Refine.antt =====
-- A list of objects whose iteration is in range behaves as its cursor.
use rehlds_m.Base.{
  ℕ, zero, suc, ◌+◌, ◌≤◌, ◌<◌, ◌≡◌, refl, sym, ap, ap₂, ◌∙◌, inl, inr, true, not, if◌then◌else◌,
  ◌==◌, ltb, leb, Bool-cases, Option-cases, some, List, [], ◌∷◌, ◌++◌, length, length-append,
  length-drop, take, drop, take-append, drop-append, take-suc, drop-suc, drop-length,
  take-append-drop, arith,
}
use rehlds_m.ObjectList.{
  ObjectList, null, find_index, init, add, add_head, add_tail, remove, clear, first, next, contains,
  remove_head,
}
use rehlds_m.ObjectList.Cursor.{
  Cursor, Op, inits, firsts, nexts, removes_head, adds, adds_tail, adds_head, removes, looks_for,
  clears, Reply, nothing, flag, pointer, freed, cursor_step, restart,
}
use rehlds_m.ObjectList.Erase.{
  length-erase_at, IsFirst, find_index-some, find_index-none, IsFirst-mem, IsFirst-lt,
  IsFirst-passed, IsFirst-pending, mem-take-false, IsFirst-split,
}

-- The calls, `remove_tail` and the operators on iterators apart.
unfoldable pub step : ObjectList → Op → Reply × ObjectList
step l inits = (nothing, init l)
step l firsts = let (o, l') = first l in (pointer o, l')
step l nexts = let (o, l') = next l in (pointer o, l')
step l removes_head = let (o, l') = remove_head l in (pointer o, l')
step l (adds o) = let (b, l') = add l o in (flag b, l')
step l (adds_tail o) = let (b, l') = add_tail l o in (flag b, l')
step l (adds_head o) = let (b, l') = add_head l o in (flag b, l')
step l (removes o) = let (b, l') = remove l o in (flag b, l')
step l (looks_for o) = let (b, l') = contains l o in (flag b, l')
step l (clears free) = let (l', f) = clear l free in (freed f, l')

abbrev pub InRange : ObjectList → Type 0
InRange l = l.current ≤ length l.container

abbrev pub view : ObjectList → Cursor
view l = record { passed = take l.current l.container; pending = drop l.current l.container }

abbrev viewed : Reply × ObjectList → Reply × Cursor
viewed (r, l) = (r, view l)

abbrev pub Refines : ObjectList → Op → Type 0
Refines l op = viewed (step l op) ≡ cursor_step (view l) op

pub whole :
    (l : ObjectList) → take l.current l.container ++ drop l.current l.container ≡ l.container
whole l = take-append-drop l.current l.container

next-Refines : (l : ObjectList) → InRange l → Refines l nexts
unfolding step next cursor_step
next-Refines l r = elim (Bool-cases (leb (length l.container) l.current)) [
  | inl e ↦ ground (arith, drop-length l.container l.current)
  | inr e ↦ ground (arith, drop-suc l.container l.current null, take-suc l.container l.current null)
]

first-Refines : (l : ObjectList) → InRange l → Refines l firsts
unfolding step first cursor_step
first-Refines l r = on_container l.container l.current ∙ ap restart (sym (whole l))
  where
    on_container :
        (xs : List ℕ) (n : ℕ)
        → viewed (step (record { container = xs; current = n }) firsts) ≡ restart xs
    on_container [] n = refl
    on_container (x ∷ xs) n = refl

remove-Refines : (l : ObjectList) (o : ℕ) → InRange l → Refines l (removes o)
unfolding step remove cursor_step
remove-Refines l o r = elim (Option-cases (find_index l.container o)) [
  | inl e ↦
      rw (e, remove)
        (ground (arith, mem-take-false o l.container l.current (find_index-none l.container o e)))
  | inr (i, e) ↦ removed l.current i (find_index-some l.container o i e) e
]
  where
    removed :
        (n i : ℕ)
        → IsFirst o l.container i
        → find_index l.container o ≡ some i
        → viewed (step (record { container = l.container; current = n }) (removes o))
          ≡ cursor_step (view (record { container = l.container; current = n })) (removes o)
    removed zero i f e = rw (e, remove) (ground (arith, IsFirst-pending o l.container i 0 f))
    removed (suc n) i f e = elim (Bool-cases (ltb i (suc n))) [
      | inl lt ↦ rw (e, remove) (ground (arith, IsFirst-passed o l.container i n f))
      | inr ge ↦ rw (e, remove) (ground (arith, IsFirst-pending o l.container i (suc n) f))
    ]

contains-Refines : (l : ObjectList) (o : ℕ) → InRange l → Refines l (looks_for o)
unfolding step contains cursor_step
contains-Refines l o r = elim (Option-cases (find_index l.container o)) [
  | inl e ↦ rw (e, contains, whole l) (ground (arith, find_index-none l.container o e))
  | inr (i, e) ↦
      let f : IsFirst o l.container i = find_index-some l.container o i e in
      rw (e, contains, whole l)
        (ground (arith, IsFirst-mem o l.container i f, IsFirst-split o l.container i f))
]

add_tail-Refines : (l : ObjectList) (o : ℕ) → InRange l → Refines l (adds_tail o)
unfolding step add_tail cursor_step
add_tail-Refines l o r =
    ground (
      arith,
      take-append l.container (o ∷ []) l.current,
      drop-append l.container (o ∷ []) l.current,
    )

add_head-Refines : (l : ObjectList) (o : ℕ) → InRange l → Refines l (adds_head o)
unfolding step add_head cursor_step
add_head-Refines l o r = on_view l.container l.current r
  where
    on_view :
        (xs : List ℕ) (n : ℕ)
        → n ≤ length xs
        → viewed (step (record { container = xs; current = n }) (adds_head o))
          ≡ cursor_step (view (record { container = xs; current = n })) (adds_head o)
    on_view xs zero h = refl
    on_view [] (suc n) h = absurd (omega arith)
    on_view (x ∷ xs) (suc n) h =
        ap (λ k. viewed (flag true, record { container = o ∷ x ∷ xs; current = k })) grown
      where
        grown : (if not (suc n == 0) then suc n + 1 else suc n) ≡ suc (suc n)
        grown = ground arith

remove_head-Refines : (l : ObjectList) → InRange l → Refines l removes_head
unfolding step remove_head cursor_step
remove_head-Refines l r = on_view l.container l.current r
  where
    on_view :
        (xs : List ℕ) (n : ℕ)
        → n ≤ length xs
        → viewed (step (record { container = xs; current = n }) removes_head)
          ≡ cursor_step (view (record { container = xs; current = n })) removes_head
    on_view [] zero h = refl
    on_view [] (suc n) h = absurd (omega arith)
    on_view (x ∷ xs) zero h = refl
    on_view (x ∷ xs) (suc n) h = ground arith

step_refines :
    (l : ObjectList) (op : Op)
    → InRange l
    → let (reply, l') = step l op in (reply, view l') ≡ cursor_step (view l) op
unfolding step init add clear cursor_step
step_refines l inits r = refl
step_refines l firsts r = first-Refines l r
step_refines l nexts r = next-Refines l r
step_refines l removes_head r = remove_head-Refines l r
step_refines l (adds o) r = add_tail-Refines l o r
step_refines l (adds_tail o) r = add_tail-Refines l o r
step_refines l (adds_head o) r = add_head-Refines l o r
step_refines l (removes o) r = remove-Refines l o r
step_refines l (looks_for o) r = contains-Refines l o r
step_refines l (clears free) r = rw (whole l)

first-InRange : (l : ObjectList) → InRange (first l).1
unfolding first
first-InRange l = ground arith

next-InRange : (l : ObjectList) → InRange l → InRange (next l).1
unfolding next
next-InRange l r = ground arith

remove_head-InRange : (l : ObjectList) → InRange l → InRange (remove_head l).1
unfolding remove_head
remove_head-InRange l r = ground (arith, length-drop 1 l.container)

remove-InRange : (l : ObjectList) (o : ℕ) → InRange l → InRange (remove l o).1
unfolding remove
remove-InRange l o r = elim (Option-cases (find_index l.container o)) [
  | inl e ↦ rw (e, remove) r
  | inr (i, e) ↦
      let lt : i < length l.container =
        IsFirst-lt o l.container i (find_index-some l.container o i e) in
      rw (e, remove) (ground (arith, length-erase_at l.container i lt))
]

contains-InRange : (l : ObjectList) (o : ℕ) → InRange l → InRange (contains l o).1
unfolding contains
contains-InRange l o r = elim (Option-cases (find_index l.container o)) [
  | inl e ↦ rw (e, contains) r
  | inr (i, e) ↦
      let lt : i < length l.container =
        IsFirst-lt o l.container i (find_index-some l.container o i e) in
      rw (e, contains) (omega arith)
]

add_tail-InRange : (l : ObjectList) (o : ℕ) → InRange l → InRange (add_tail l o).1
unfolding add_tail
add_tail-InRange l o r = omega (arith, length-append l.container (o ∷ []))

add_head-InRange : (l : ObjectList) (o : ℕ) → InRange l → InRange (add_head l o).1
unfolding add_head
add_head-InRange l o r = ground arith

step-InRange : (l : ObjectList) (op : Op) → InRange l → InRange (step l op).1
unfolding step init add clear
step-InRange l inits r = omega arith
step-InRange l firsts r = first-InRange l
step-InRange l nexts r = next-InRange l r
step-InRange l removes_head r = remove_head-InRange l r
step-InRange l (adds o) r = add_tail-InRange l o r
step-InRange l (adds_tail o) r = add_tail-InRange l o r
step-InRange l (adds_head o) r = add_head-InRange l o r
step-InRange l (removes o) r = remove-InRange l o r
step-InRange l (looks_for o) r = contains-InRange l o r
step-InRange l (clears free) r = omega arith

unfoldable pub run : ObjectList → List Op → List Reply
run l [] = []
run l (op ∷ ops) = let (reply, l') = step l op in reply ∷ run l' ops

unfoldable pub cursor_run : Cursor → List Op → List Reply
cursor_run c [] = []
cursor_run c (op ∷ ops) = let (reply, c') = cursor_step c op in reply ∷ cursor_run c' ops

-- No sequence of calls without `remove_tail` tells a list whose iteration is in range from its
-- cursor: an iteration under way gives the objects that it has not passed yet, each once and in
-- order, whatever is added and removed meanwhile.
pub run-cursor_run :
    (ops : List Op) (l : ObjectList) → InRange l → run l ops ≡ cursor_run (view l) ops
unfolding run cursor_run
run-cursor_run [] l r = refl
run-cursor_run (op ∷ ops) l r = ap₂ ◌∷◌ (ap (λ s. s.0) (step_refines l op r)) (
    run-cursor_run ops (step l op).1 (step-InRange l op r)
    ∙ ap (λ s. cursor_run s.1 ops) (step_refines l op r))
