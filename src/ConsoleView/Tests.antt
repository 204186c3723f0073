-- ===== src/ConsoleView/Tests.antt =====
-- A text, a null pointer and a line, printed by the engine; and the status on a window.
use rehlds_m.Base.{
  ◌≡◌, refl, Bool, true, false, ◌==◌, ◌||◌, if◌then◌else◌, none, some, [], ◌∷◌, Text,
}
use rehlds_m.Stringpy.{newline}
use rehlds_m.Logger.{log_init_console, format}
use rehlds_m.ConsoleView.{
  Fmt, Spdlog, print_each, ConsoleView, invalidate_rect, display_server_status,
}
use rehlds_m.ConsoleView.Printed.{
  open_brace, close_brace, HasNoBraces, CopiesPlain, print_each-joined,
}

-- It copies texts without braces and throws at the others.
abbrev has_brace : Text → Bool
has_brace [] = false
has_brace (c ∷ t) = (c == open_brace || c == close_brace) || has_brace t

abbrev strict_fmt : Fmt
strict_fmt t = if has_brace t then none else some t

has_brace-HasNoBraces : (t : Text) → HasNoBraces t → has_brace t ≡ false
has_brace-HasNoBraces [] h = refl
has_brace-HasNoBraces (c ∷ t) (a, b, h) = rw (a, b) (has_brace-HasNoBraces t h)

strict_fmt-CopiesPlain : CopiesPlain strict_fmt
strict_fmt-CopiesPlain t h = rw (has_brace-HasNoBraces t h) refl

abbrev logs_all : Spdlog
logs_all logger_level level = true

abbrev hi : Text
hi = b'h' ∷ b'i' ∷ []

print_each-joined_example :
    print_each strict_fmt logs_all true
      (log_init_console true hi)
      (some hi ∷ none ∷ some (b'!' ∷ newline ∷ []) ∷ [])
    ≡ some (b'h' ∷ b'i' ∷ b'!' ∷ newline ∷ [])
print_each-joined_example =
    print_each-joined strict_fmt strict_fmt-CopiesPlain logs_all (λ level. refl) true true hi
      (some hi ∷ none ∷ some (b'!' ∷ newline ∷ []) ∷ [])
      ((refl, refl, (refl, refl, tt)), (tt, ((refl, refl, (refl, refl, tt)), tt)))

-- A brace makes it throw.
brace_test :
    print_each strict_fmt logs_all true (log_init_console false []) (some (open_brace ∷ []) ∷ [])
    ≡ none
unfolding print_each log_init_console format
brace_test = refl

abbrev shown_view : ConsoleView
shown_view = record {
  stdout_handle = 1;
  console_window_handle = 2;
  font_handle = 3;
  console_device_context = 4;
  current_scroll_pos = 0;
  screen_buffer_info = record { top = 0; width = 80 };
}

-- After scrolling the window is only drawn again.
scrolled_test :
    (display_server_status
      (λ fps. [])
      (λ text width. text)
      (some (record { top = 5; width = 80 }))
      (record { fps = 0; num_players = 1; max_players = 8; current_map = hi })
      shown_view).1
    ≡ invalidate_rect 2
unfolding display_server_status
scrolled_test = refl
