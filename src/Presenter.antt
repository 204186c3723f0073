-- ===== src/Presenter.antt =====
-- libs/presenter/include/presenter/input_presenter.hpp: `Presenter::InputPresenter`, between the
-- console and the model. Of the server loop it holds the input queue; the search for commands is
-- that of Matches.
pub mod Matches
mod Tests
use rehlds_m.Base.{Option, List, [], ◌∷◌, ◌++◌, Text}
use rehlds_m.Stringpy.{Stringpy, newline}
use rehlds_m.File.{Disk, Stream, FileLog}
use rehlds_m.History.{UserInputHistory, append, next, previous, save, load}

pub record InputPresenter : Type 0 where
  pub input_queue : List Text
  pub input_history : UserInputHistory
  pub disk : Disk

-- `ServerLoop::enqueue_input` adds a line feed and queues the text.
unfoldable pub enqueue_text : List Text → Text → List Text
enqueue_text queue input = queue ++ ((input ++ (newline ∷ [])) ∷ [])

unfoldable pub history_previous : InputPresenter → Option Text × InputPresenter
history_previous p =
    let (text, h) = previous p.input_history in (text, record p { input_history = h })

unfoldable pub history_next : InputPresenter → Option Text × InputPresenter
history_next p = let (text, h) = next p.input_history in (text, record p { input_history = h })

module _ (str : Stringpy) where
  -- The constructor loads the history.
  unfoldable pub new_presenter :
      Stream → Disk → List Text → UserInputHistory → InputPresenter × List FileLog
  new_presenter io disk queue h =
      let (h', log) = load str io disk h in
      (record { input_queue = queue; input_history = h'; disk = disk }, log)

  unfoldable pub enqueue_input : Stream → InputPresenter → Text → InputPresenter × List FileLog
  enqueue_input io p input =
      let h = append str p.input_history input in
      let (log, disk') = save io p.disk h in
      (
        record { input_queue = enqueue_text p.input_queue input; input_history = h; disk = disk' },
        log,
      )
