-- ===== src/ObjectList.antt =====
-- libs/common/include/common/object_list.hpp and libs/common/src/common/object_list.cpp:
-- `Common::ObjectList`, a deque of pointers with the place of an iteration. A pointer is a number,
-- 0 the null pointer. `current` counts the objects that the iteration has passed.
pub mod Cursor
pub mod Erase
pub mod Refine
pub mod Walk
pub mod TailDefect
mod Tests
use rehlds_m.Base.{
  ℕ, zero, suc, ◌+◌, ◌-◌, Bool, true, false, ◌&&◌, if◌then◌else◌, ◌==◌, ltb, leb, not, Option, none,
  some, List, [], ◌∷◌, ◌++◌, length, get_or, take, drop, drop_last, last_or,
}

pub record ObjectList : Type 0 where
  pub container : List ℕ
  pub current : ℕ

abbrev pub null : ℕ
null = 0

abbrev pub fresh : ObjectList
fresh = record { container = []; current = 0 }

-- `std::find` and `std::distance`: the index of the first occurrence.
unfoldable pub find_index : List ℕ → ℕ → Option ℕ
find_index [] object = none
find_index (x ∷ xs) object =
    if x == object
    then some 0
    else elim (find_index xs object) [ none ↦ none | some i ↦ some (suc i) ]

-- `std::deque::erase` at an index.
abbrev pub erase_at : List ℕ → ℕ → List ℕ
erase_at [] i = []
erase_at (x ∷ xs) zero = xs
erase_at (x ∷ xs) (suc i) = x ∷ erase_at xs i

abbrev pub is_empty : List ℕ → Bool
is_empty [] = true
is_empty (x ∷ xs) = false

-- Beside the list, the objects that are freed, in order.
unfoldable pub clear : ObjectList → Bool → ObjectList × List ℕ
clear l free_elements_memory =
    (record { container = []; current = 0 }, if free_elements_memory then l.container else [])

unfoldable pub init : ObjectList → ObjectList
unfolding clear
init l = (clear (record l { current = 0 }) false).0

unfoldable pub add_tail : ObjectList → ℕ → Bool × ObjectList
add_tail l object = (true, record l { container = l.container ++ (object ∷ []) })

unfoldable pub add : ObjectList → ℕ → Bool × ObjectList
unfolding add_tail
add l object = add_tail l object

unfoldable pub add_head : ObjectList → ℕ → Bool × ObjectList
add_head l object = (
  true,
  record {
    container = object ∷ l.container;
    current = if not (l.current == 0) then l.current + 1 else l.current;
  },
)

unfoldable pub remove : ObjectList → ℕ → Bool × ObjectList
unfolding find_index
remove l object = elim (find_index l.container object) [
  | none ↦ (false, l)
  | some i ↦ (
    true,
    record {
      container = erase_at l.container i;
      current = if ltb 0 l.current && ltb i l.current then l.current - 1 else l.current;
    },
  )
]

unfoldable pub first : ObjectList → ℕ × ObjectList
first l =
    if is_empty l.container
    then (null, record l { current = 0 })
    else (get_or l.container 0 null, record l { current = 1 })

unfoldable pub next : ObjectList → ℕ × ObjectList
next l =
    if leb (length l.container) l.current
    then (null, l)
    else (get_or l.container l.current null, record l { current = l.current + 1 })

unfoldable pub size : ObjectList → ℕ
size l = length l.container

unfoldable pub empty : ObjectList → Bool
empty l = is_empty l.container

unfoldable pub contains : ObjectList → ℕ → Bool × ObjectList
unfolding find_index
contains l object = elim (find_index l.container object) [
  | none ↦ (false, l)
  | some i ↦ (true, record l { current = i })
]

unfoldable pub remove_head : ObjectList → ℕ × ObjectList
remove_head l = if is_empty l.container then (null, l) else (
  get_or l.container 0 null,
  record {
    container = drop 1 l.container;
    current = if ltb 0 l.current then l.current - 1 else l.current;
  },
)

unfoldable pub remove_tail : ObjectList → ℕ × ObjectList
remove_tail l = if is_empty l.container then (null, l) else (
  last_or l.container null,
  record {
    container = drop_last l.container;
    current =
        if ltb 0 l.current && (length l.container - 1 == l.current)
        then l.current - 1
        else l.current;
  },
)

-- `erase` at an iterator and over a range of iterators, as indices.
unfoldable pub erase : ObjectList → ℕ → ObjectList
erase l pos = record { container = erase_at l.container pos; current = 0 }

unfoldable pub erase_range : ObjectList → ℕ → ℕ → ObjectList
erase_range l start stop = record {
  container = take start l.container ++ drop stop l.container;
  current = 0;
}

-- `std::sort` by the caller's comparator is the first argument.
unfoldable pub sort : (List ℕ → List ℕ) → ObjectList → ObjectList
sort std_sort l = record { container = std_sort l.container; current = 0 }
