-- ===== src/CircularBuffer/Runs.antt =====
-- Sequences of a client's calls on a circular buffer, and on the bounded sequence.
use rehlds_m.Base.{ℕ, ◌≡◌, refl, ◌∙◌, ap, List, [], ◌∷◌, arith}
use rehlds_m.CircularBuffer.{
  CircularBuffer, clear, push_front, push_back, pop_front, pop_back, size,
}
use rehlds_m.CircularBuffer.Deque
use rehlds_m.CircularBuffer.Inv.{
  IsValid, Fits, push_back-IsValid, push_front-IsValid, pop_front-IsValid, pop_back-IsValid,
  clear-IsValid,
}
use rehlds_m.CircularBuffer.Refine.{
  contents, push_back_refines, push_front_refines, pop_front_refines, pop_back_refines,
}

-- The calls that change a buffer.
pub data Op {ℓ} (A : Type ℓ) : Type ℓ where
  front_push : A → Op A
  back_push : A → Op A
  front_pop : Op A
  back_pop : Op A
  clears : Op A

module _ {ℓ} {A : Type ℓ} (n : ℕ) where
  unfoldable pub step : CircularBuffer A → Op A → CircularBuffer A
  step b (front_push x) = push_front n b x
  step b (back_push x) = push_back n b x
  step b front_pop = pop_front n b
  step b back_pop = pop_back n b
  step b clears = clear b

  unfoldable pub run : CircularBuffer A → List (Op A) → CircularBuffer A
  run b [] = b
  run b (op ∷ ops) = run (step b op) ops

  -- The same calls on the sequence.
  unfoldable pub deque_step : List A → Op A → List A
  deque_step q (front_push x) = Deque.push_front n q x
  deque_step q (back_push x) = Deque.push_back n q x
  deque_step q front_pop = Deque.pop_front q
  deque_step q back_pop = Deque.pop_back q
  deque_step q clears = []

  unfoldable pub deque_run : List A → List (Op A) → List A
  deque_run q [] = q
  deque_run q (op ∷ ops) = deque_run (deque_step q op) ops

module _ {ℓ} {A : Type ℓ} (n : ℕ) (fits : Fits n) where
  -- Every call that changes a buffer keeps the invariant: the indices stay inside the array, and
  -- the array keeps its length.
  pub step-IsValid : {b : CircularBuffer A} (op : Op A) → IsValid n b → IsValid n (step n b op)
  unfolding step
  step-IsValid (front_push x) v = push_front-IsValid n fits x v
  step-IsValid (back_push x) v = push_back-IsValid n fits x v
  step-IsValid front_pop v = pop_front-IsValid n fits v
  step-IsValid back_pop v = pop_back-IsValid n fits v
  step-IsValid clears v = clear-IsValid n fits v

  pub contents-clear : (d : A) {b : CircularBuffer A} → IsValid n b → contents n d (clear b) ≡ []
  unfolding clear size
  contents-clear d {b} v = ground arith

  step_refines :
      (d : A) {b : CircularBuffer A} (op : Op A)
      → IsValid n b
      → contents n d (step n b op) ≡ deque_step n (contents n d b) op
  unfolding step deque_step
  step_refines d (front_push x) v = push_front_refines n fits d x v
  step_refines d (back_push x) v = push_back_refines n fits d x v
  step_refines d front_pop v = pop_front_refines n fits d v
  step_refines d back_pop v = pop_back_refines n fits d v
  step_refines d clears v = contents-clear d v

  -- From a valid buffer, any sequence of calls ends in a valid buffer that holds what the same
  -- calls leave of the bounded sequence.
  pub run_refines :
      (d : A) (ops : List (Op A)) {b : CircularBuffer A}
      → IsValid n b
      → (contents n d (run n b ops) ≡ deque_run n (contents n d b) ops) × IsValid n (run n b ops)
  unfolding run deque_run
  run_refines d [] v = (refl, v)
  run_refines d (op ∷ ops) v =
      let (e, w) = run_refines d ops (step-IsValid op v) in
      (e ∙ ap (λ q. deque_run n q ops) (step_refines d op v), w)
