-- ===== src/OutputPresenter/Tests.antt =====
-- Two presenters of a loop that has a listener.
use rehlds_m.Base.{refl, arith, ℕ, List, length, last_or, ◌++◌, ◌+◌, ◌≡◌, [], ◌∷◌}
use rehlds_m.Base.Int.{pos}
use rehlds_m.ServerLoop.{ServerLoop, ServerStatus, not_set}
use rehlds_m.Observable.{notify}
use rehlds_m.OutputPresenter.Throttle.{
  shown_on, Call, Shown, IsRate, call_updates, call_updates-IsRate,
}

abbrev heard : ServerLoop
heard = record {
  pingboost_level = not_set;
  target_fps_ = pos 0;
  status = record { fps = 0; num_players = 0; max_players = 0; current_map = b'm' ∷ [] };
  task_queue = record { queue = []; sleepers = [] };
  input_queue = record { queue = []; sleepers = [] };
  listeners = record { listeners = (0, 4) ∷ []; next_handle = 1 };
}

abbrev joined : ServerStatus → ServerStatus
joined status = record status { num_players = status.num_players + 1 }

-- Three calls of the clock in the first second, at most 0.4 seconds apart.
abbrev called_at : ℕ → Call
called_at time = record { current_time = time; update = joined }

abbrev shown_first : Shown
shown_first = record { server = heard; last = 0; displays = [] }

abbrev three_calls : List Call
three_calls = called_at 400_000_000 ∷ called_at 700_000_000 ∷ called_at 1_000_000_000 ∷ []

call_updates-IsRate_example :
    (statuses : List ServerStatus) × ((call_updates shown_first three_calls).displays
      ≡ [] ++ shown_on (4 ∷ []) statuses)
    × (last_or statuses heard.status ≡ (call_updates shown_first three_calls).server.status)
    × IsRate 400_000_000 0 1_000_000_000 (length statuses)
unfolding notify
call_updates-IsRate_example =
    call_updates-IsRate 400_000_000 0 shown_first three_calls (omega arith) (omega arith)
      (omega arith)

-- The second of them is the one that shows.
call_updates_test : length (call_updates shown_first three_calls).displays ≡ 1
unfolding call_updates notify
call_updates_test = refl
