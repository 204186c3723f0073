-- ===== src/CircularBuffer/Tests.antt =====
-- Runs of the circular buffer, and the theorems at concrete buffers.
use rehlds_m.Base.{ℕ, ◌≡◌, refl, inl, false, List, [], ◌∷◌, arith}
use rehlds_m.CircularBuffer.{CircularBuffer}
use rehlds_m.CircularBuffer.Deque
use rehlds_m.CircularBuffer.Inv.{IsValid}
use rehlds_m.CircularBuffer.Refine.{contents}
use rehlds_m.CircularBuffer.Runs.{
  Op, front_push, back_push, back_pop, run, deque_run, deque_step, run_refines,
}

-- Three places; 8 then 9, round the end of the array.
abbrev wrapped : CircularBuffer ℕ
wrapped = record { buffer = 9 ∷ 7 ∷ 8 ∷ []; head = 1; tail = 2; full_flag = false }

wrapped-IsValid : IsValid 3 wrapped
wrapped-IsValid = record {
  storage = refl;
  head_in = omega arith;
  tail_in = omega arith;
  met = inl refl;
}

abbrev script : List (Op ℕ)
script = back_push 1 ∷ back_push 2 ∷ front_push 3 ∷ back_pop ∷ []

script_leaves : deque_run 3 (8 ∷ 9 ∷ []) script ≡ 3 ∷ 9 ∷ []
unfolding deque_run deque_step Deque.push_back Deque.push_front Deque.pop_back
script_leaves = refl

run_refines_example :
    (contents 3 0 (run 3 wrapped script) ≡ deque_run 3 (contents 3 0 wrapped) script)
    × IsValid 3 (run 3 wrapped script)
run_refines_example = run_refines 3 (omega arith) 0 script wrapped-IsValid
