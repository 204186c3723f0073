-- ===== src/Console/SavedDefect.antt =====
-- The draft that the first up arrow saves.
use rehlds_m.Base.{◌≡◌, refl, ap, ap₂, some, none, [], Text, arith}
use rehlds_m.Stringpy.{Stringpy}
use rehlds_m.File.{Stream}
use rehlds_m.History.{UserInputHistory, append, next}
use rehlds_m.Presenter.{enqueue_input, history_next}
use rehlds_m.Console.{ConsoleInput, handle_newline, handle_down_arrow, show_next, down_line}

module _ (str : Stringpy) where
  next-append : (h : UserInputHistory) (input : Text) → (next (append str h input)).0 ≡ none
  unfolding next append
  next-append h input = ground arith

  -- A saved draft outlives the line that is entered: right after the entered line, an empty one is
  -- edited, and the down arrow replaces it by the draft of before.
  pub handle_down_arrow-handle_newline :
      (io : Stream) (c : ConsoleInput) (draft : Text)
      → c.saved_input ≡ some draft
      → let entered = (handle_newline str io c).0 in
        (entered.input_line ≡ []) × ((handle_down_arrow entered).0.input_line ≡ draft)
  unfolding handle_newline handle_down_arrow show_next history_next enqueue_input
  handle_down_arrow-handle_newline io c draft e =
      let entered = (handle_newline str io c).0 in
      let d = record entered { input_presenter = (history_next entered.input_presenter).1 } in
      (
        refl,
        ap (λ o. (show_next d o).0.input_line)
            (ap₂ down_line (next-append c.input_presenter.input_history c.input_line) e),
      )
