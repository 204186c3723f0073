-- ===== src/ServerLoop/Timer/Wakes.antt =====
-- No signal is lost between the setting of the timer and the wait for it.
use rehlds_m.Base.{◌≡◌, refl, subst, Bool, true, false, List, [], ◌∷◌, arith}
use rehlds_m.ServerLoop.Timer.{
  SleepPhase, awake, at_clear, at_set, at_pause, pausing, at_mark, Timer, initial, set_timer_real,
  sleep_timer_step, sigalrm_handler, TimerEvent, continues, fires, timer_step, timer_run,
}

-- From the setting of the timer to the end of the wait the loop is not marked as paused, and the
-- timer is set.
abbrev pub IsArmed : SleepPhase → Timer → Type 0
IsArmed awake t = Unit {0}
IsArmed at_clear t = Unit {0}
IsArmed at_set t = t.paused ≡ false
IsArmed at_pause t = (t.paused ≡ false) × (t.set ≡ true)
IsArmed pausing t = (t.paused ≡ false) × (t.set ≡ true)
IsArmed at_mark t = Unit {0}

abbrev pub IsGuarded : Timer → Type 0
IsGuarded t = IsArmed t.phase t

continues-IsGuarded :
    (phase : SleepPhase) (success paused set : Bool)
    → let t : Timer = record { phase = phase; paused = paused; set = set } in
      IsArmed phase t → IsGuarded (sleep_timer_step phase success t)
unfolding sleep_timer_step set_timer_real
continues-IsGuarded awake success paused set h = tt
continues-IsGuarded at_clear success paused set h = refl
continues-IsGuarded at_set true paused set h = (h, refl)
continues-IsGuarded at_set false paused set h = tt
continues-IsGuarded at_pause success paused set h = h
continues-IsGuarded pausing success paused set h = h
continues-IsGuarded at_mark success paused set h = tt

fires-IsGuarded :
    (phase : SleepPhase) (own paused set : Bool)
    → let t : Timer = record { phase = phase; paused = paused; set = set } in
      IsArmed phase t → IsGuarded (timer_step t (fires own))
unfolding timer_step sigalrm_handler set_timer_real
fires-IsGuarded phase own paused false h = h
fires-IsGuarded awake own true true h = tt
fires-IsGuarded awake own false true h = tt
fires-IsGuarded at_clear own true true h = tt
fires-IsGuarded at_clear own false true h = tt
fires-IsGuarded at_set own true true h = h
fires-IsGuarded at_set own false true h = refl
fires-IsGuarded at_pause own true true h = cc
fires-IsGuarded at_pause own false true h = (refl, refl)
fires-IsGuarded pausing own true true h = cc
fires-IsGuarded pausing true false true h = tt
fires-IsGuarded pausing false false true h = (refl, refl)
fires-IsGuarded at_mark own true true h = tt
fires-IsGuarded at_mark own false true h = tt

timer_step-IsGuarded :
    (t : Timer) (event : TimerEvent) → IsGuarded t → IsGuarded (timer_step t event)
unfolding timer_step
timer_step-IsGuarded t (continues success) h = continues-IsGuarded t.phase success t.paused t.set h
timer_step-IsGuarded t (fires own) h = fires-IsGuarded t.phase own t.paused t.set h

timer_run-IsGuarded :
    (t : Timer) (events : List TimerEvent) → IsGuarded t → IsGuarded (timer_run t events)
unfolding timer_run
timer_run-IsGuarded t [] h = h
timer_run-IsGuarded t (event ∷ events) h =
    timer_run-IsGuarded (timer_step t event) events (timer_step-IsGuarded t event h)

wakes :
    (paused set : Bool) (phase : SleepPhase)
    → phase ≡ pausing
    → paused ≡ false
    → set ≡ true
    → let t : Timer = record { phase = phase; paused = paused; set = set } in
      (success : Bool)
      → timer_run t (fires true ∷ continues success ∷ [])
        ≡ record { phase = awake; paused = true; set = true }
unfolding timer_run timer_step sigalrm_handler set_timer_real sleep_timer_step
wakes paused set phase e p s success = ground arith

-- In every sequence of the statements of `sleep_timer` and of the signals, also of signals that come
-- before `pause` is called or run the handler in another thread: whenever the loop's thread waits in
-- `pause`, the timer is set, and the next signal that runs the handler in the loop's thread ends the
-- wait, after which the loop goes on, marked as paused.
pub timer_run-pausing :
    (events : List TimerEvent) (success : Bool)
    → (timer_run initial events).phase ≡ pausing
    → ((timer_run initial events).set ≡ true)
      × (timer_run (timer_run initial events) (fires true ∷ continues success ∷ [])
          ≡ record { phase = awake; paused = true; set = true })
timer_run-pausing events success e =
    let t = timer_run initial events in
    let (p, s) = subst (λ phase. IsArmed phase t) e (timer_run-IsGuarded initial events tt) in
    (s, wakes t.paused t.set t.phase e p s success)
