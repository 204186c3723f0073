-- ===== src/ConsoleView/Printed.antt =====
-- What the engine prints, and what the console shows.
use rehlds_m.Base.{
  ℕ, ◌≡◌, refl, Bool, true, false, ◌==◌, Option, none, some, List, [], ◌∷◌, ◌++◌, append-nil, Text,
}
use rehlds_m.Logger.{LogLevel, info, log_init_console, format, print}
use rehlds_m.ConsoleView.{Fmt, Spdlog, sink_it, log_message, log_messages, print_each}

abbrev pub open_brace : ℕ
open_brace = b'{'

abbrev pub close_brace : ℕ
close_brace = b'}'

abbrev pub HasNoBraces : Text → Type 0
HasNoBraces [] = Unit
HasNoBraces (c ∷ t) = ((c == open_brace) ≡ false) × ((c == close_brace) ≡ false) × HasNoBraces t

-- The documented behaviour: what is not in braces is copied unchanged.
abbrev pub CopiesPlain : Fmt → Type 0
CopiesPlain fmt = (t : Text) → HasNoBraces t → fmt t ≡ some t

-- The documented behaviour: a message of the level of the logger is passed on.
abbrev pub PassesOwn : Spdlog → Type 0
PassesOwn should_log = (level : LogLevel) → should_log level level ≡ true

abbrev pub text_or_empty : Option Text → Text
text_or_empty none = []
text_or_empty (some t) = t

abbrev pub HaveNoBraces : List (Option Text) → Type 0
HaveNoBraces [] = Unit
HaveNoBraces (t ∷ ts) = HasNoBraces (text_or_empty t) × HaveNoBraces ts

abbrev pub joined : List (Option Text) → Text
joined [] = []
joined (t ∷ ts) = text_or_empty t ++ joined ts

module _ (fmt : Fmt) (plain : CopiesPlain fmt) (should_log : Spdlog) (own : PassesOwn should_log)
    (flushed con_debug : Bool) (logfile : Text) where
  sink_it-info : (t : Text) → HasNoBraces t → sink_it fmt flushed info t ≡ some t
  unfolding sink_it format
  sink_it-info t h = rw (append-nil t, plain t h) refl

  log_message-info :
      (debugs : Bool) (t : Text)
      → HasNoBraces t
      → log_message fmt should_log flushed (log_init_console debugs logfile) info t ≡ some t
  unfolding log_message log_init_console
  log_message-info true t h = rw (own info, sink_it-info t h, append-nil t) refl
  log_message-info false t h = rw (own info, sink_it-info t h, append-nil t) refl

  log_messages-print :
      (text : Option Text)
      → HasNoBraces (text_or_empty text)
      → log_messages fmt should_log flushed (log_init_console con_debug logfile) (print text)
        ≡ some (text_or_empty text)
  unfolding print
  log_messages-print none h = refl
  log_messages-print (some []) h = refl
  log_messages-print (some (c ∷ t)) h =
      rw (log_message-info con_debug (c ∷ t) h, append-nil (c ∷ t)) refl

  -- For an fmt and an spdlog with the documented behaviour, and whether debugging to a file is asked
  -- for or not: the console shows exactly the texts that the engine prints, one after the other, if
  -- none has a brace, and a null pointer shows nothing.
  pub print_each-joined :
      (texts : List (Option Text))
      → HaveNoBraces texts
      → print_each fmt should_log flushed (log_init_console con_debug logfile) texts
        ≡ some (joined texts)
  unfolding print_each
  print_each-joined [] h = refl
  print_each-joined (t ∷ ts) (h, hs) = rw (log_messages-print t h, print_each-joined ts hs) refl
