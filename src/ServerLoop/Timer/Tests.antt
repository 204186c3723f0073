-- ===== src/ServerLoop/Timer/Tests.antt =====
-- A signal between the setting of the timer and the wait.
use rehlds_m.Base.{◌≡◌, refl, true, false, List, [], ◌∷◌}
use rehlds_m.ServerLoop.Timer.{TimerEvent, continues, fires, initial, awake, timer_step, timer_run}
use rehlds_m.ServerLoop.Timer.Wakes.{timer_run-pausing}

abbrev early_signal : List TimerEvent
early_signal =
    continues true
    ∷ continues true
    ∷ continues true
    ∷ fires true
    ∷ continues true
    ∷ fires false
    ∷ []

timer_run-pausing_example :
    ((timer_run initial early_signal).set ≡ true)
    × (timer_run (timer_run initial early_signal) (fires true ∷ continues true ∷ [])
        ≡ record { phase = awake; paused = true; set = true })
unfolding timer_run timer_step
timer_run-pausing_example = timer_run-pausing early_signal true refl
