-- ===== src/CircularBuffer.antt =====
-- libs/util/include/util/circular_buffer.hpp: `Util::CircularBuffer<T, N>`. `N` and the
-- value-initialised element `T{}` are parameters. `tail` is the index of the first element, `head`
-- the index behind the last one. References are read as values.
pub mod Deque
pub mod Window
pub mod Inv
pub mod Refine
pub mod Reads
pub mod Runs
mod Tests
use rehlds_m.Base.{
  ℕ, ◌+◌, ◌-◌, ◌%◌, ◌^◌, ◌≤◌, ◌<◌, Bool, true, false, not, ◌&&◌, if◌then◌else◌, ◌==◌, leb, List,
  get_or, set, replicate,
}
use rehlds_m.Base.Mod.{add_size, sub_size}

pub record CircularBuffer {ℓ} (A : Type ℓ) : Type ℓ where
  pub buffer : List A
  pub head : ℕ
  pub tail : ℕ
  pub full_flag : Bool

module _ {ℓ} {A : Type ℓ} (n : ℕ) (init : A) where
  -- The default member initialisers.
  unfoldable pub fresh : CircularBuffer A
  fresh = record { buffer = replicate n init; head = 0; tail = 0; full_flag = false }

module _ {ℓ} {A : Type ℓ} where
  unfoldable pub full : CircularBuffer A → Bool
  full b = b.full_flag

  unfoldable pub empty : CircularBuffer A → Bool
  empty b = not b.full_flag && (b.head == b.tail)

  unfoldable pub clear : CircularBuffer A → CircularBuffer A
  clear b = record b { head = b.tail; full_flag = false }

-- `((i + N) - 1) % N` and `(i + 1) % N`.
abbrev pub index_before : ℕ → ℕ → ℕ
index_before n i = sub_size (add_size i n) 1 % n

abbrev pub index_after : ℕ → ℕ → ℕ
index_after n i = add_size i 1 % n

module _ {ℓ} {A : Type ℓ} (n : ℕ) where
  unfoldable pub push_front : CircularBuffer A → A → CircularBuffer A
  push_front b item =
      let t = index_before n b.tail in
      let h = if b.full_flag then index_before n b.head else b.head in
      record { buffer = set b.buffer t item; head = h; tail = t; full_flag = h == t }

  unfoldable pub push_back : CircularBuffer A → A → CircularBuffer A
  push_back b item =
      let h = index_after n b.head in
      let t = if b.full_flag then index_after n b.tail else b.tail in
      record { buffer = set b.buffer b.head item; head = h; tail = t; full_flag = h == t }

  unfoldable pub pop_front : CircularBuffer A → CircularBuffer A
  unfolding empty
  pop_front b =
      if not (empty b) then record b { full_flag = false; tail = index_after n b.tail } else b

  unfoldable pub pop_back : CircularBuffer A → CircularBuffer A
  unfolding empty
  pop_back b =
      if not (empty b) then record b { full_flag = false; head = index_before n b.head } else b

  unfoldable pub size : CircularBuffer A → ℕ
  size b =
      if b.full_flag
      then n
      else if leb b.tail b.head
      then sub_size b.head b.tail
      else sub_size (add_size n b.head) b.tail

  -- A read out of the array gives the default; `Inv` shows that none occurs.
  unfoldable pub front : CircularBuffer A → A → A
  front b d = get_or b.buffer b.tail d

  unfoldable pub back : CircularBuffer A → A → A
  back b d = get_or b.buffer (index_before n b.head) d

  unfoldable pub elem_at : CircularBuffer A → ℕ → A → A
  elem_at b index d = get_or b.buffer (add_size b.tail index % n) d

  -- `emplace_front` and `emplace_back` also return a reference to the new element.
  unfoldable pub emplace_front : CircularBuffer A → A → CircularBuffer A × A
  unfolding push_front front
  emplace_front b item = let b' = push_front b item in (b', front b' item)

  unfoldable pub emplace_back : CircularBuffer A → A → CircularBuffer A × A
  unfolding push_back back
  emplace_back b item = let b' = push_back b item in (b', back b' item)
