-- ===== src/ConsoleView.antt =====
-- libs/view/include/view/linux/console_view.hpp, libs/view/include/view/windows/console_view.hpp and
-- libs/view/src/view/windows/console_view.cpp: `View::ConsoleView`, with the sink of
-- libs/util/src/util/logger.cpp that gives it the log, and what it takes of gdi.cpp, process.cpp and
-- console.cpp of libs/util/src/util/windows. fmt, spdlog and Windows are parameters; handles are
-- numbers, and `none` is the null handle, a failure, or the end of the program.
pub mod Printed
pub mod Display
mod Tests
use rehlds_m.Base.{
  ℕ, Bool, true, false, not, if◌then◌else◌, ◌==◌, ◌*◌, Option, none, some, List, [], ◌∷◌, ◌++◌,
  Text,
}
use rehlds_m.Convert.Decimal.{to_string}
use rehlds_m.ServerLoop.{ServerStatus}
use rehlds_m.Logger.{LogLevel, Logger, Sink, log_output_sink, file_sink, format, print}

-- Programs that may end or throw.
infixl 5 ◌>>=◌
abbrev pub ◌>>=◌ : {A B : Type 0} → Option A → (A → Option B) → Option B
◌>>=◌ m f = elim m [ none ↦ none | some a ↦ f a ]

-- What `fmt::print` writes of a format string without arguments; none is the exception.
abbrev pub Fmt : Type 0
Fmt = Text → Option Text

-- Whether spdlog passes a message of a level to the sinks of a logger that has a level.
abbrev pub Spdlog : Type 0
Spdlog = LogLevel → LogLevel → Bool

-- `ConsoleView::print` of both platforms, with the result of `fflush`.
unfoldable pub print_text : Fmt → Bool → Text → Option (Text × Bool)
print_text fmt flushed text = do out ← fmt text; some (out, flushed)

unfoldable pub write_log : Fmt → Bool → Text → Option Text
unfolding print_text
write_log fmt flushed message = do result ← print_text fmt flushed message; some result.0

-- `LogOutputSink::sink_it_`
unfoldable pub sink_it : Fmt → Bool → LogLevel → Text → Option Text
unfolding write_log
sink_it fmt flushed level payload = write_log fmt flushed (format level payload)

-- What the sinks of a logger print on the console for a message. The sink of a file prints nothing
-- there.
abbrev pub sink_each : Fmt → Bool → List Sink → LogLevel → Text → Option Text
sink_each fmt flushed [] level payload = some []
sink_each fmt flushed (log_output_sink ∷ sinks) level payload = do
  out ← sink_it fmt flushed level payload
  rest ← sink_each fmt flushed sinks level payload
  some (out ++ rest)
sink_each fmt flushed (file_sink name ∷ sinks) level payload =
    sink_each fmt flushed sinks level payload

unfoldable pub log_message : Fmt → Spdlog → Bool → Logger → LogLevel → Text → Option Text
unfolding sink_it
log_message fmt should_log flushed logger level payload =
    if should_log logger.settings.level level
    then sink_each fmt flushed logger.sinks level payload
    else some []

abbrev pub log_messages : Fmt → Spdlog → Bool → Logger → List (LogLevel × Text) → Option Text
log_messages fmt should_log flushed logger [] = some []
log_messages fmt should_log flushed logger ((level, payload) ∷ messages) = do
  out ← log_message fmt should_log flushed logger level payload
  rest ← log_messages fmt should_log flushed logger messages
  some (out ++ rest)

-- The texts that the engine prints, one after the other.
unfoldable pub print_each : Fmt → Spdlog → Bool → Logger → List (Option Text) → Option Text
unfolding log_message print
print_each fmt should_log flushed logger [] = some []
print_each fmt should_log flushed logger (text ∷ texts) = do
  out ← log_messages fmt should_log flushed logger (print text)
  rest ← print_each fmt should_log flushed logger texts
  some (out ++ rest)

-- Windows: what the constructor asks for.
pub record WindowsConsole : Type 0 where
  pub stdout_handle : Option ℕ
  pub console_window : Option ℕ
  pub font : Option ℕ
  pub device_context : ℕ → Option ℕ

-- The answer of GetConsoleScreenBufferInfo: the top of the window, and the width of the buffer.
pub record BufferInfo : Type 0 where
  pub top : ℕ
  pub width : ℕ

-- With `screen_buffer_info`, a static variable.
pub record ConsoleView : Type 0 where
  pub stdout_handle : ℕ
  pub console_window_handle : ℕ
  pub font_handle : ℕ
  pub console_device_context : ℕ
  pub current_scroll_pos : ℕ
  pub screen_buffer_info : BufferInfo

-- The functions that end the program at a failure are those whose answer is none.
unfoldable pub new_console_view : WindowsConsole → BufferInfo → Option ConsoleView
new_console_view system buffer = do
  output ← system.stdout_handle
  window ← system.console_window
  font ← system.font
  context ← system.device_context window
  some (record {
    stdout_handle = output;
    console_window_handle = window;
    font_handle = font;
    console_device_context = context;
    current_scroll_pos = 0;
    screen_buffer_info = buffer;
  })

-- What is drawn in the window.
pub data Draw : Type 0 where
  invalidate_rect : ℕ → Draw
  text_out : ℕ → Text → Draw

abbrev pub info_or : Option BufferInfo → BufferInfo → BufferInfo
info_or none old = old
info_or (some answer) old = answer

module _ (fps_text : ℕ → Text) (ljust : Text → ℕ → Text) where
  -- "  FPS: {:.1f}   Players: {}/{}   Map: {}"
  abbrev pub status_text : ServerStatus → Text
  status_text status =
      (b' ' ∷ b' ' ∷ b'F' ∷ b'P' ∷ b'S' ∷ b':' ∷ b' ' ∷ [])
      ++ (fps_text status.fps
          ++ ((b' ' ∷ b' ' ∷ b' ' ∷ b'P' ∷ b'l' ∷ b'a' ∷ b'y' ∷ b'e' ∷ b'r' ∷ b's' ∷ b':' ∷ b' '
                ∷ [])
              ++ (to_string status.num_players
                  ++ (b'/'
                      ∷ (to_string status.max_players
                          ++ ((b' ' ∷ b' ' ∷ b' ' ∷ b'M' ∷ b'a' ∷ b'p' ∷ b':' ∷ b' ' ∷ [])
                              ++ status.current_map))))))

  -- Where the window has scrolled, it is only to be drawn again.
  unfoldable pub display_server_status :
      Option BufferInfo → ServerStatus → ConsoleView → ConsoleView × Draw
  display_server_status answer status v =
      let buffer = info_or answer v.screen_buffer_info in
      if not (buffer.top == v.current_scroll_pos)
      then (
        record v { screen_buffer_info = buffer; current_scroll_pos = buffer.top },
        invalidate_rect v.console_window_handle,
      )
      else (
        record v { screen_buffer_info = buffer },
        text_out v.console_device_context (ljust (status_text status) (buffer.width * 2)),
      )

-- What the destructor gives back: the device context of the window, and the font.
pub data Released : Type 0 where
  release_dc : ℕ → ℕ → Released
  delete_object : ℕ → Released

unfoldable pub release_console_view : ConsoleView → List Released
release_console_view v =
    release_dc v.console_window_handle v.console_device_context ∷ delete_object v.font_handle ∷ []
