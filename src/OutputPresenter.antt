-- ===== src/OutputPresenter.antt =====
-- libs/presenter/include/presenter/output_presenter.hpp: `Presenter::OutputPresenter`, which shows the
-- status of the server loop in its view when the loop tells of a new one. A presenter is the number
-- of the listener that its constructor appends, and a view the statuses that it displayed.
pub mod Shown
pub mod Throttle
mod Tests
use rehlds_m.Base.{ℕ, Bool, List, [], ◌∷◌, ◌++◌}
use rehlds_m.Observable.{Observable, append_listener}
use rehlds_m.ServerLoop.{ServerLoop, ServerStatus, ServerLoopEvent, status_updated, update_status}

-- A status that the view of a presenter was given.
pub record Display : Type 0 where
  pub presenter : ℕ
  pub shown : ServerStatus

unfoldable pub new_output_presenter : ServerLoop → ℕ → ServerLoop
unfolding append_listener
new_output_presenter s presenter = record s {
  listeners = (append_listener s.listeners presenter).1;
}

unfoldable pub update_server_status : ServerLoop → ServerLoopEvent → ℕ → List Display
update_server_status s status_updated presenter =
    record { presenter = presenter; shown = s.status } ∷ []

-- The calls of the listeners, in their order.
unfoldable pub notify_each : ServerLoop → List ℕ → List Display
unfolding update_server_status
notify_each s [] = []
notify_each s (presenter ∷ presenters) =
    update_server_status s status_updated presenter ++ notify_each s presenters

-- `ServerLoop::update_status`, with what is displayed.
unfoldable pub update_displays :
    Bool → (ServerStatus → ServerStatus) → ServerLoop → ServerLoop × List Display
unfolding update_status notify_each
update_displays is_time_to_update update s =
    let (s', listeners) = update_status is_time_to_update update s in (s', notify_each s' listeners)
