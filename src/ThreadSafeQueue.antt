-- ===== src/ThreadSafeQueue.antt =====
-- libs/util/include/util/threadsafe_queue.hpp: `Util::ThreadSafeQueue<T>`. The mutex makes each
-- call one step; `none` is a call that has to wait on the condition variable, in which its thread
-- then sleeps. Nothing in the source notifies that variable, so only a spurious wake-up, which the
-- language allows, ends the sleep.
pub mod Steps
mod Tests
use rehlds_m.Base.{
  ℕ, zero, suc, ◌≡◌, Bool, true, false, not, ◌&&◌, ◌||◌, if◌then◌else◌, ◌==◌, Option, none, some,
  List, [], ◌∷◌, ◌++◌, length,
}

pub record ThreadSafeQueue {ℓ} (A : Type ℓ) : Type ℓ where
  pub queue : List A
  -- The threads that sleep in `pop`.
  pub sleepers : List ℕ

pub data Call {ℓ} (A : Type ℓ) : Type ℓ where
  pushes : A → Call A
  clears : Call A
  pops : ℕ → Call A
  wakes : ℕ → Call A

abbrev pub without : List ℕ → ℕ → List ℕ
without [] thread = []
without (t ∷ ts) thread = if t == thread then ts else t ∷ without ts thread

abbrev pub elem : ℕ → List ℕ → Bool
elem thread [] = false
elem thread (t ∷ ts) = t == thread || elem thread ts

module _ {ℓ} {A : Type ℓ} where
  -- The constructors: over a container, as a copy, and by moving, which leaves the other queue
  -- without its elements. Where they get an allocator they do the same.
  unfoldable pub of_container : List A → ThreadSafeQueue A
  of_container container = record { queue = container; sleepers = [] }

  unfoldable pub copy : ThreadSafeQueue A → ThreadSafeQueue A
  copy other = record { queue = other.queue; sleepers = [] }

  unfoldable pub move : ThreadSafeQueue A → ThreadSafeQueue A × ThreadSafeQueue A
  move other = (record { queue = other.queue; sleepers = [] }, record other { queue = [] })

  unfoldable pub push : ThreadSafeQueue A → A → ThreadSafeQueue A
  push q item = record q { queue = q.queue ++ (item ∷ []) }

  unfoldable pub clear : ThreadSafeQueue A → ThreadSafeQueue A
  clear q = record q { queue = [] }

  abbrev pub first : List A → Option A
  first [] = none
  first (item ∷ items) = some item

  abbrev pub last : List A → Option A
  last [] = none
  last (item ∷ []) = some item
  last (item ∷ other ∷ items) = last (other ∷ items)

  unfoldable pub front : ThreadSafeQueue A → Option A
  front q = first q.queue

  unfoldable pub back : ThreadSafeQueue A → Option A
  back q = last q.queue

  unfoldable pub size : ThreadSafeQueue A → ℕ
  size q = length q.queue

  unfoldable pub empty : ThreadSafeQueue A → Bool
  empty q = elim q.queue [ [] ↦ true | item ∷ items ↦ false ]

  -- The part of `pop` behind the wait; `none` where the wait goes on.
  unfoldable pub take_front : ThreadSafeQueue A → Option (A × ThreadSafeQueue A)
  take_front q = elim q.queue [ [] ↦ none | item ∷ items ↦ some (item, record q { queue = items }) ]

  -- What a thread's call of `pop` does at once: it gives an element, or the thread sleeps.
  unfoldable pub pop : ThreadSafeQueue A → ℕ → Option A × ThreadSafeQueue A
  unfolding take_front
  pop q thread = elim (take_front q) [
    | none ↦ (none, record q { sleepers = thread ∷ q.sleepers })
    | some (item, q') ↦ (some item, q')
  ]

  -- A spurious wake-up of a sleeper.
  unfoldable pub wake : ThreadSafeQueue A → ℕ → Option A × ThreadSafeQueue A
  unfolding pop
  wake q thread =
      if elem thread q.sleepers
      then pop (record q { sleepers = without q.sleepers thread }) thread
      else (none, q)

  abbrev pub to_list : Option A → List A
  to_list none = []
  to_list (some item) = item ∷ []

  -- The state after a call, and what left the queue.
  unfoldable pub step : ThreadSafeQueue A → Call A → List A × ThreadSafeQueue A
  unfolding push clear wake
  step q (pushes item) = ([], push q item)
  step q clears = (q.queue, clear q)
  step q (pops thread) = let (item, q') = pop q thread in (to_list item, q')
  step q (wakes thread) = let (item, q') = wake q thread in (to_list item, q')

  unfoldable pub run : ThreadSafeQueue A → List (Call A) → List A × ThreadSafeQueue A
  unfolding step
  run q [] = ([], q)
  run q (call ∷ calls) =
      let (out, q') = step q call in let (rest, q'') = run q' calls in (out ++ rest, q'')
