-- ===== src/OutputPresenter/Throttle.antt =====
-- How often the views are shown a new status, by the clock of the server loop.
use rehlds_m.Base.{
  ℕ, sym, ap₂, map, last_or, append_assoc, ◌+◌, ◌*◌, ◌≤◌, ◌<◌, ◌≡◌, refl, ap, ◌∙◌, Bool-cases, inl,
  inr, ◌⊎◌, ◌-◌, some, List, [], ◌∷◌, ◌++◌, length, append-nil, arith, leb,
}
use rehlds_m.Observable.{notify}
use rehlds_m.ServerLoop.{ServerLoop, ServerStatus, blank_map, update_status}
use rehlds_m.ServerLoop.Clock.{update_interval, is_time_to_update, milliseconds}
use rehlds_m.OutputPresenter.Shown.{display_on, notify_each-map}
use rehlds_m.OutputPresenter.{Display, update_displays}

-- The calls of `update_status` in a run of the loop: what the clock tells, and what the engine
-- writes.
pub record Call : Type 0 where
  pub current_time : ℕ
  pub update : ServerStatus → ServerStatus

-- The loop, the static time, and what the views displayed.
pub record Shown : Type 0 where
  pub server : ServerLoop
  pub last : ℕ
  pub displays : List Display

unfoldable pub call_update : Shown → Call → Shown
unfolding is_time_to_update update_displays
call_update s call =
    let (is_time, last) = is_time_to_update (some s.last) call.current_time call.current_time in
    let (server, displays) = update_displays is_time call.update s.server in
    record { server = server; last = last; displays = s.displays ++ displays }

unfoldable pub call_updates : Shown → List Call → Shown
unfolding call_update
call_updates s [] = s
call_updates s (call ∷ calls) = call_updates (call_update s call) calls

abbrev pub half_second : ℕ
half_second = 500_000_000

-- No call comes before the one before it, or more than `gap` after it.
abbrev pub AreSteady : ℕ → ℕ → List Call → Type 0
AreSteady gap before [] = Unit {0}
AreSteady gap before (call ∷ calls) =
    (before ≤ call.current_time)
    × (call.current_time ≤ before + gap)
    × AreSteady gap call.current_time calls

abbrev pub last_time : ℕ → List Call → ℕ
last_time before [] = before
last_time before (call ∷ calls) = last_time call.current_time calls

-- Each status in its turn, shown once on every view.
abbrev pub shown_on : List ℕ → List ServerStatus → List Display
shown_on views [] = []
shown_on views (status ∷ statuses) = map (display_on status) views ++ shown_on views statuses

-- One call: it updates exactly if half a second has gone by since the last update.
call_update-cases :
    (s : Shown) (call : Call)
    → ((s.last + half_second ≤ call.current_time)
        × ((call_update s call).last ≡ call.current_time)
        × ((call_update s call).server.listeners ≡ s.server.listeners)
        × ((call_update s call).displays
            ≡ s.displays
              ++ map (display_on (call_update s call).server.status) (notify s.server.listeners)))
      ⊎ ((call.current_time < s.last + half_second)
          × ((call_update s call).last ≡ s.last)
          × ((call_update s call).server.listeners ≡ s.server.listeners)
          × ((call_update s call).server.status ≡ s.server.status)
          × ((call_update s call).displays ≡ s.displays))
unfolding call_update is_time_to_update update_displays update_status
call_update-cases s call =
    elim (Bool-cases (leb update_interval (milliseconds (call.current_time - s.last)))) [
      | inl e ↦
          let status = call.update (record s.server.status { current_map = blank_map }) in
          let told = record s.server { status = status } in
          inl (
            rw e (
              ground arith,
              refl,
              refl,
              ap (λ q. s.displays ++ q) (notify_each-map told (notify s.server.listeners)),
            ))
      | inr e ↦ inr (rw e (ground arith, refl, refl, refl, append-nil s.displays))
    ]

-- After `n` updates since the time `last`, up to a time at which the next is not overdue.
pub record IsRate (gap last time n : ℕ) : Type 0 where
  pub spaced : last + n * half_second ≤ time
  pub frequent : time < last + n * (half_second + gap) + half_second

-- Where the clock is steady, its calls are at most `gap` apart, and half a second has not gone by
-- since the last update: over any calls there are statuses such that what is displayed is each of
-- them in its turn, on every view once and in the order of the views, the last is that of the loop,
-- and their number is at most that of the half seconds in the time since the last update, and at
-- least that of the spans of half a second and `gap`.
pub call_updates-IsRate :
    (gap before : ℕ) (s : Shown) (calls : List Call)
    → s.last ≤ before
    → before < s.last + half_second
    → AreSteady gap before calls
    → (statuses : List ServerStatus) × ((call_updates s calls).displays
        ≡ s.displays ++ shown_on (notify s.server.listeners) statuses)
      × (last_or statuses s.server.status ≡ (call_updates s calls).server.status)
      × IsRate gap s.last (last_time before calls) (length statuses)
unfolding call_updates
call_updates-IsRate gap before s [] h k steady =
    ([], sym (append-nil s.displays), refl, record { spaced = omega arith; frequent = omega arith })
call_updates-IsRate gap before s (call ∷ calls) h k (later, near, steady) =
    let next = call_update s call in
    let time = call.current_time in
    elim (call_update-cases s call) [
      | inl (due, l, o, d) ↦
          let (statuses, e, newest, r) =
            call_updates-IsRate gap time next calls (omega (arith, l)) (omega (arith, l)) steady in
          let status = next.server.status in
          let views = notify s.server.listeners in
          (
            status ∷ statuses,
            e
                ∙ ap₂ (λ shown q. shown ++ shown_on (notify q) statuses) d o
                ∙ append_assoc s.displays (map (display_on status) views) (shown_on views statuses),
            newest,
            record {
              spaced = omega (arith, r.spaced, due, l);
              frequent = omega (arith, r.frequent, near, k, l);
            },
          )
      | inr (soon, l, o, same, d) ↦
          let (statuses, e, newest, r) =
            call_updates-IsRate gap time next calls (omega (arith, l)) (omega (arith, l)) steady in
          (
            statuses,
            e ∙ ap₂ (λ shown q. shown ++ shown_on (notify q) statuses) d o,
            sym (ap (last_or statuses) same) ∙ newest,
            record { spaced = omega (arith, r.spaced, l); frequent = omega (arith, r.frequent, l) },
          )
    ]
