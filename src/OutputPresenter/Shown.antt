-- ===== src/OutputPresenter/Shown.antt =====
-- What the views show after the status changed.
use rehlds_m.Base.{
  ℕ, ◌≡◌, refl, ap, ap₂, ◌∙◌, true, false, List, [], ◌∷◌, ◌++◌, map, append_assoc, append-nil, sym,
}
use rehlds_m.Observable.{append_listener, notify}
use rehlds_m.Observable.Listeners.{called-append}
use rehlds_m.ServerLoop.{ServerLoop, ServerStatus, blank_map, update_status}
use rehlds_m.OutputPresenter.{Display, new_output_presenter, notify_each, update_displays}

unfoldable pub new_each : ServerLoop → List ℕ → ServerLoop
unfolding new_output_presenter
new_each s [] = s
new_each s (presenter ∷ presenters) = new_each (new_output_presenter s presenter) presenters

abbrev pub display_on : ServerStatus → ℕ → Display
display_on status presenter = record { presenter = presenter; shown = status }

pub notify_each-map :
    (s : ServerLoop) (presenters : List ℕ)
    → notify_each s presenters ≡ map (display_on s.status) presenters
unfolding notify_each
notify_each-map s [] = refl
notify_each-map s (presenter ∷ presenters) =
    ap (λ q. display_on s.status presenter ∷ q) (notify_each-map s presenters)

status-new_each : (s : ServerLoop) (presenters : List ℕ) → (new_each s presenters).status ≡ s.status
unfolding new_each new_output_presenter
status-new_each s [] = refl
status-new_each s (presenter ∷ presenters) =
    status-new_each (new_output_presenter s presenter) presenters

notify-new_each :
    (s : ServerLoop) (presenters : List ℕ)
    → notify (new_each s presenters).listeners ≡ notify s.listeners ++ presenters
unfolding new_each new_output_presenter append_listener notify
notify-new_each s [] = sym (append-nil (notify s.listeners))
notify-new_each s (presenter ∷ presenters) =
    notify-new_each (new_output_presenter s presenter) presenters
    ∙ ap (λ q. q ++ presenters)
        (called-append s.listeners.listeners ((s.listeners.next_handle, presenter) ∷ []))
    ∙ append_assoc (notify s.listeners) (presenter ∷ []) presenters

-- After any presenters were made for a loop, and where it is time for an update, every view, those
-- of earlier listeners first, is given the status that the engine then wrote, once; before it is
-- time nothing is displayed and the loop stays as it is.
pub update_displays-new_each :
    (s : ServerLoop) (presenters : List ℕ) (update : ServerStatus → ServerStatus)
    → let l = new_each s presenters in
      let status = update (record s.status { current_map = blank_map }) in
      (update_displays false update l ≡ (l, []))
      × ((update_displays true update l).0.status ≡ status)
      × ((update_displays true update l).1
          ≡ map (display_on status) (notify s.listeners ++ presenters))
unfolding update_displays update_status
update_displays-new_each s presenters update =
    let l = new_each s presenters in
    let kept = status-new_each s presenters in
    let given : update (record l.status { current_map = blank_map })
        ≡ update (record s.status { current_map = blank_map }) =
      ap (λ t. update (record t { current_map = blank_map })) kept in
    (
      refl,
      given,
      notify_each-map (update_status true update l).0 (notify l.listeners)
          ∙ ap₂ (λ t q. map (display_on t) q) given (notify-new_each s presenters),
    )
