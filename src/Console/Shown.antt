-- ===== src/Console/Shown.antt =====
-- Every session of keys, as a relation: the terminal shows the editor's line, and its cursor.
use rehlds_m.Base.{
  ℕ, ◌≤◌, ◌≡◌, refl, sym, ap, subst, ◌∙◌, append_assoc, inl, inr, Bool, true, false, if◌then◌else◌,
  ltb, Bool-cases, Option, none, some, List, [], ◌∷◌, ◌++◌, length, last_or, drop, Text, arith,
}
use rehlds_m.Stringpy.{Stringpy, newline}
use rehlds_m.File.{Stream}
use rehlds_m.History.Inv.{IsConsistent}
use rehlds_m.Presenter.{InputPresenter}
use rehlds_m.Console.{
  ConsoleInput, Output, space, show_line, clear_input, handle_left_arrow, handle_right_arrow,
  handle_home, handle_delete, handle_backspace, handle_char, handle_tab, tab_matches,
}
use rehlds_m.Console.Complete.{find_common_command_prefix, print_command_matches}
use rehlds_m.Console.Terminal.{Screen, at, emit, IsPlain}
use rehlds_m.Console.Display.{Shows, IsPlain-append, IsPlain-drop, row}
use rehlds_m.Console.Editing.{
  Keeps, Keeps-row, handle_left_arrow-Keeps, handle_right_arrow-Keeps, handle_home-Keeps,
  handle_delete-Keeps, handle_backspace-Keeps, handle_char-Keeps,
}
use rehlds_m.Console.Recall.{
  clear_input-at_end, handle_end-Keeps, shown_below, typed_on, handle_end_lem,
}
use rehlds_m.Console.Session.{
  PlainLaws, MaybePlain, ArePlain, IsWorking, Remains, kept_by, common_prefix-IsPlain,
  handle_newline-Remains, handle_up_arrow-Remains, handle_down_arrow-Remains,
}
use rehlds_m.Console.Keys.{
  Key, up_arrow, down_arrow, right_arrow, left_arrow, end_key, home_key, delete_key, newline_key,
  backspace_key, tab_key, char_key, press,
}

-- The editor as it is constructed.
abbrev pub start : InputPresenter → ConsoleInput
start p = record { input_presenter = p; input_line = []; saved_input = none; cursor_position = 0 }

module _ (str : Stringpy) (laws : PlainLaws str) (find_command_matches : Text → List Text)
    (console_width : ℕ) where
  -- A completion is made at the end of the line.
  abbrev pub CompletesAtEnd : ConsoleInput → List Text → Type 0
  CompletesAtEnd c [] = Unit {0}
  CompletesAtEnd c (command ∷ []) = c.cursor_position ≡ length c.input_line
  CompletesAtEnd c (command ∷ other ∷ commands) = Unit {0}

  abbrev pub IsSimple : ConsoleInput → Key → Type 0
  IsSimple c tab_key = CompletesAtEnd c (find_command_matches c.input_line)
  IsSimple c up_arrow = Unit {0}
  IsSimple c down_arrow = Unit {0}
  IsSimple c right_arrow = Unit {0}
  IsSimple c left_arrow = Unit {0}
  IsSimple c end_key = Unit {0}
  IsSimple c home_key = Unit {0}
  IsSimple c delete_key = Unit {0}
  IsSimple c newline_key = Unit {0}
  IsSimple c backspace_key = Unit {0}
  IsSimple c (char_key ch) = Unit {0}

  -- What the terminal and the editor come to from their start, key by key.
  pub data Session (t₀ : Screen) (c₀ : ConsoleInput) : Screen → ConsoleInput → Type 0 where
    opened : Session t₀ c₀ t₀ c₀
    pressed :
        {t : Screen} {c : ConsoleInput} (io : Stream) (key : Key) (r : ConsoleInput × Output)
        → Session t₀ c₀ t c
        → IsSimple c key
        → press str find_command_matches console_width io c key ≡ some r
        → Session t₀ c₀ (emit t r.1) r.0

  ResultRemains : Screen → Option (ConsoleInput × Output) → Type 0
  ResultRemains t none = Unit {0}
  ResultRemains t (some r) = Remains str laws t r

  -- Of the editor's state, only the line and the cursor are new.
  EditsOnly : ConsoleInput → ConsoleInput × Output → Type 0
  EditsOnly c r = (r.0.saved_input ≡ c.saved_input) × (r.0.input_presenter ≡ c.input_presenter)

  EditsOnly-if :
      (b : Bool) (c : ConsoleInput) (r₁ r₂ : ConsoleInput × Output)
      → EditsOnly c r₁
      → EditsOnly c r₂
      → EditsOnly c (if b then r₁ else r₂)
  EditsOnly-if true c r₁ r₂ e f = e
  EditsOnly-if false c r₁ r₂ e f = f

  module _ (t : Screen) (c : ConsoleInput) (w : IsWorking str laws c) (s : Shows t c) where
    edited : (r : ConsoleInput × Output) → Keeps t r → EditsOnly c r → Remains str laws t r
    unfolding EditsOnly
    edited r k e =
        kept_by str laws t c w s r k (subst MaybePlain (sym e.0) w.saved)
          (subst (λ p. IsConsistent str p.input_history) (sym e.1) w.consistent)

    completes :
        (command : Text)
        → IsPlain command
        → c.cursor_position ≡ length c.input_line
        → let completion = drop (length c.input_line) command ++ (space ∷ []) in
          Remains str laws t (show_line c (c.input_line ++ completion), completion)
    completes command p e =
        let completion = drop (length c.input_line) command ++ (space ∷ []) in
        let q : IsPlain completion =
          IsPlain-append (drop (length c.input_line) command) (space ∷ [])
            (IsPlain-drop command (length c.input_line) p) (refl, tt) in
        kept_by str laws t c w s _
          (Keeps-row t c w.editing s (show_line c (c.input_line ++ completion)) completion _
            (record {
              inside = omega arith;
              plain = IsPlain-append c.input_line completion w.editing.plain q;
            })
            (ap (λ n. emit (row s.0 c.input_line n s.1) completion) e
              ∙ typed_on s.0 c.input_line completion s.1 q))
          w.saved w.consistent

    tab_matches-Remains :
        (commands : List Text)
        → ArePlain commands
        → CompletesAtEnd c commands
        → ResultRemains t (tab_matches find_command_matches console_width c commands)
    unfolding tab_matches ResultRemains emit find_common_command_prefix
    tab_matches-Remains [] p e = (w, s)
    tab_matches-Remains (command ∷ []) p e =
        elim (Bool-cases (ltb (length command) (length c.input_line))) [
          | inl h ↦ rw (h, tab_matches) tt
          | inr h ↦ rw (h, tab_matches) (completes command p.0 e)
        ]
    tab_matches-Remains (command ∷ other ∷ commands) p e =
        let line = find_common_command_prefix (command ∷ other ∷ commands) in
        let shown = newline ∷ print_command_matches console_width (command ∷ other ∷ commands) in
        subst (λ out. Remains str laws t (show_line (clear_input c).0 line, out))
          (append_assoc (clear_input c).1 shown (newline ∷ line))
          (kept_by str laws t c w s
            (show_line (clear_input c).0 line, ((clear_input c).1 ++ shown) ++ (newline ∷ line))
            (shown_below t c w.editing s (clear_input c).0 ((clear_input c).1 ++ shown) line
              (common_prefix-IsPlain str laws command (last_or (other ∷ commands) command) p.0))
            (subst (λ d. MaybePlain d.saved_input) (sym (clear_input-at_end c w.editing)) w.saved)
            (subst (λ d. IsConsistent str d.input_presenter.input_history)
              (sym (clear_input-at_end c w.editing)) w.consistent))

    press-Remains :
        (io : Stream) (key : Key)
        → ((line : Text) → ArePlain (find_command_matches line))
        → IsSimple c key
        → ResultRemains t (press str find_command_matches console_width io c key)
    unfolding press ResultRemains EditsOnly handle_tab handle_left_arrow handle_right_arrow
        handle_home handle_delete handle_backspace handle_char
    press-Remains io up_arrow p e = handle_up_arrow-Remains str laws t c w s
    press-Remains io down_arrow p e = handle_down_arrow-Remains str laws t c w s
    press-Remains io right_arrow p e =
        edited _ (handle_right_arrow-Keeps t c w.editing s)
          (EditsOnly-if _ c _ _ (refl, refl) (refl, refl))
    press-Remains io left_arrow p e =
        edited _ (handle_left_arrow-Keeps t c w.editing s)
          (EditsOnly-if _ c _ _ (refl, refl) (refl, refl))
    press-Remains io end_key p e =
        edited _ (handle_end-Keeps t c w.editing s)
          (subst (EditsOnly c) (sym (handle_end_lem c w.editing)) (refl, refl))
    press-Remains io home_key p e =
        edited _ (handle_home-Keeps t c w.editing s)
          (EditsOnly-if _ c _ _ (refl, refl) (refl, refl))
    press-Remains io delete_key p e =
        edited _ (handle_delete-Keeps t c w.editing s)
          (EditsOnly-if _ c _ _ (refl, refl) (refl, refl))
    press-Remains io newline_key p e = handle_newline-Remains str laws t c w s io
    press-Remains io backspace_key p e =
        edited _ (handle_backspace-Keeps t c w.editing s)
          (EditsOnly-if _ c _ _ (refl, refl) (refl, refl))
    press-Remains io tab_key p e =
        tab_matches-Remains (find_command_matches c.input_line) (p c.input_line) e
    press-Remains io (char_key ch) p e =
        edited _ (handle_char-Keeps t c w.editing s str laws.plain_char ch)
          (EditsOnly-if _ c _ _ (refl, refl) (refl, refl))

  given :
      (t : Screen) (o : Option (ConsoleInput × Output)) (r : ConsoleInput × Output)
      → o ≡ some r
      → ResultRemains t o
      → Remains str laws t r
  unfolding ResultRemains
  given t o r e h = subst (ResultRemains t) e h

  Session-IsWorking :
      {t₀ : Screen} {c₀ : ConsoleInput} {t : Screen} {c : ConsoleInput}
      → ((line : Text) → ArePlain (find_command_matches line))
      → IsWorking str laws c₀
      → Shows t₀ c₀
      → Session t₀ c₀ t c
      → IsWorking str laws c × Shows t c
  Session-IsWorking p w s opened = (w, s)
  Session-IsWorking p w s (pressed {t} {c} io key r run e h) =
      let (w', s') = Session-IsWorking p w s run in
      given t _ r h (press-Remains t c w' s' io key p e)

  -- For a text library in which what is printable is plain (no backspace, carriage return or line
  -- feed), in every session from an empty line, a consistent history and a cursor at the start of a
  -- blank row, in which what is found for a text is plain and a single match is completed only
  -- with the cursor at the end of the line: the cursor stands in the line, and the terminal shows,
  -- after every key, the line from the start of its row on with only blanks behind it, and its
  -- cursor is at the editor's place.
  pub Session-Shows :
      (p : InputPresenter) (above : List Text) (t : Screen) (c : ConsoleInput)
      → ((line : Text) → ArePlain (find_command_matches line))
      → IsConsistent str p.input_history
      → Session (at above [] []) (start p) t c
      → (c.cursor_position ≤ length c.input_line) × Shows t c
  Session-Shows p above t c q i run =
      let (w, s) =
        Session-IsWorking q
          (record {
            editing = record { inside = omega arith; plain = tt };
            saved = tt;
            consistent = i;
          })
          (above, 0, refl) run in
      (w.editing.inside, s)
