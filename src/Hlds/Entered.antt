-- ===== src/Hlds/Entered.antt =====
-- From the bytes that are typed to the inputs that the engine gets.
use rehlds_m.Base.{
  ℕ, ◌+◌, ◌≤◌, ◌≡◌, refl, sym, ap, ap₂, subst, ◌∙◌, Bool, true, false, Option, some, List, [], ◌∷◌,
  ◌++◌, map, append-nil, append_assoc, length, length-append, take, drop, take-length, drop-length,
  if◌then◌else◌, Text, arith,
}
use rehlds_m.Stringpy.{Stringpy, join_lines}
use rehlds_m.File.{Disk, Stream}
use rehlds_m.Presenter.{enqueue_input, enqueue_text}
use rehlds_m.Console.{ConsoleInput, handle_char, handle_newline}
use rehlds_m.Console.Keys.{Key, newline_key, char_key, press, read_keys}
use rehlds_m.Console.KeyCodes.{read_keys-codes}
use rehlds_m.ThreadSafeQueue.{push}
use rehlds_m.ServerLoop.{Loop, runs, enters, step, run}
use rehlds_m.ServerLoop.Delivery.{IsReady, all_inputs, run-inputs}
use rehlds_m.Init.{init_server_loop}
use rehlds_m.Hlds.{
  Hlds, new_server_loop, shares, shared_by, pressed_as, construct, Act, presses, ends, loops, act,
  act_next, act_each,
}
use rehlds_m.Hlds.Typing.{
  with_line_feed, typing_lines, keys_of, ArePlainLines, AllType, entered, entered-typing_lines,
  codes-typing_lines, AreTyped-typing_lines, AllType-typing_lines,
}

-- The arguments set the pace of the loop alone.
init_server_loop-queue :
    (args : Text) → (init_server_loop args new_server_loop).input_queue.queue ≡ []
unfolding init_server_loop
init_server_loop-queue args = ground arith

module _ (str : Stringpy) where
  -- At the end of the line a printable byte is appended.
  handle_char-end :
      (c : ConsoleInput) (ch : ℕ)
      → str.is_printable_char ch ≡ true
      → c.cursor_position ≡ length c.input_line
      → (handle_char str c ch).0 ≡ record c {
        input_line = c.input_line ++ (ch ∷ []);
        cursor_position = length (c.input_line ++ (ch ∷ []));
      }
  unfolding handle_char
  handle_char-end c ch p e =
      let line = c.input_line in
      let put : take c.cursor_position line ++ (ch ∷ drop c.cursor_position line)
          ≡ line ++ (ch ∷ []) =
        ap₂ (λ a b. a ++ (ch ∷ b)) (take-length line c.cursor_position (omega arith))
          (drop-length line c.cursor_position (omega arith)) in
      let moved : c.cursor_position + 1 ≡ length (line ++ (ch ∷ [])) =
        omega (arith, e, length-append line (ch ∷ [])) in
      rw p (λ i. record c { input_line = put i; cursor_position = moved i })

-- A step of the loop's thread keeps what was enqueued.
runs-inputs :
    (l : Loop) (goes_on : Bool)
    → IsReady l
    → IsReady (step l (runs goes_on)) × (all_inputs (step l (runs goes_on)) ≡ all_inputs l)
unfolding run
runs-inputs l goes_on h =
    let (ready, kept, tasks_kept) = run-inputs l (runs goes_on ∷ []) h in
    (ready, kept ∙ append-nil (all_inputs l))

-- The console's thread runs and has typed a line up to its end.
record IsTyping (h : Hlds) (line : Text) : Type 0 where
  running : h.running ≡ true
  reads : h.reads ≡ true
  typed : h.console.input_line ≡ line
  at_end : h.console.cursor_position ≡ length h.console.input_line
  ready : IsReady h.loop

module _ (str : Stringpy) (find_command_matches : Text → List Text) (console_width : ℕ)
    (io : Stream) where
  abbrev acted : Hlds → Act → Option Hlds
  acted = act str find_command_matches console_width io

  abbrev with_line : Hlds → Text → Hlds
  with_line h line =
      shared_by h (record (shares h) { input_line = line; cursor_position = length line })

  -- What the console is when its line was entered.
  abbrev with_entered : Hlds → Hlds
  with_entered h = shared_by h (handle_newline str io (shares h)).0

  act-presses :
      (h : Hlds) (key : Key)
      → h.reads ≡ true
      → acted h (presses key)
        ≡ pressed_as h (press str find_command_matches console_width io (shares h) key)
  unfolding act
  act-presses h key e =
      ap
        (λ b.
          if b
          then pressed_as h (press str find_command_matches console_width io (shares h) key)
          else some h)
        e

  act-char :
      (h : Hlds) (line : Text) (ch : ℕ)
      → IsTyping h line
      → str.is_printable_char ch ≡ true
      → acted h (presses (char_key ch)) ≡ some (with_line h (h.console.input_line ++ (ch ∷ [])))
  unfolding press
  act-char h line ch w p =
      act-presses h (char_key ch) w.reads
      ∙ ap (λ c. some (shared_by h c)) (handle_char-end str (shares h) ch p w.at_end)

  act-newline :
      (h : Hlds) (line : Text)
      → IsTyping h line
      → acted h (presses newline_key) ≡ some (with_entered h)
  unfolding press
  act-newline h line w = act-presses h newline_key w.reads

  with_entered-loop :
      (h : Hlds) → (with_entered h).loop ≡ run h.loop (enters h.console.input_line ∷ [])
  unfolding handle_newline enqueue_input enqueue_text run step push
  with_entered-loop h = refl

  act-ends : (h : Hlds) → h.running ≡ true → acted h ends ≡ some h
  unfolding act
  act-ends h e = ap (λ b. some (if b then h else record h { reads = false })) e

  act-loops :
      (h : Hlds) (goes_on : Bool)
      → acted h (loops goes_on) ≡ some (record h { loop = step h.loop (runs goes_on) })
  unfolding act
  act-loops h goes_on = refl

  with_entered-IsTyping :
      (h : Hlds) (line : Text)
      → IsTyping h line
      → IsTyping (with_entered h) []
        × (all_inputs (with_entered h).loop ≡ all_inputs h.loop ++ (with_line_feed line ∷ []))
  unfolding handle_newline
  with_entered-IsTyping h line w =
      let (ready, kept, tasks_kept) =
        run-inputs h.loop (enters h.console.input_line ∷ []) w.ready in
      let same = with_entered-loop h in
      (
        record {
          running = w.running;
          reads = w.reads;
          typed = refl;
          at_end = refl;
          ready = subst IsReady (sym same) ready;
        },
        ap all_inputs same ∙ kept ∙ ap (λ l. all_inputs h.loop ++ (with_line_feed l ∷ [])) w.typed,
      )

  abbrev acted_each : List Act → Hlds → Option Hlds
  acted_each = act_each str find_command_matches console_width io

  acted_each-step :
      (a : Act) (acts : List Act) (h h1 : Hlds) {h' : Hlds}
      → acted h a ≡ some h1
      → acted_each acts h1 ≡ some h'
      → acted_each (a ∷ acts) h ≡ some h'
  unfolding act_each
  acted_each-step a acts h h1 e f = ap (act_next (acted_each acts)) e ∙ f

  -- What acts that type come to.
  abbrev Enters : Hlds → Text → List Act → Type 0
  Enters h line acts =
      (h' : Hlds) × (acted_each acts h ≡ some h')
      × IsReady h'.loop
      × (all_inputs h'.loop ≡ all_inputs h.loop ++ map with_line_feed (entered line (keys_of acts)))

  act_each-entered :
      (acts : List Act) (h : Hlds) (line : Text)
      → IsTyping h line
      → AllType str (keys_of acts)
      → Enters h line acts
  unfolding act_each
  act_each-entered [] h line w t = (h, refl, w.ready, sym (append-nil (all_inputs h.loop)))
  act_each-entered (presses (char_key ch) ∷ acts) h line w t =
      let line' = h.console.input_line ++ (ch ∷ []) in
      let typed : line' ≡ line ++ (ch ∷ []) = ap (λ l. l ++ (ch ∷ [])) w.typed in
      let w' : IsTyping (with_line h line') (line ++ (ch ∷ [])) = record {
        running = w.running;
        reads = w.reads;
        typed = typed;
        at_end = refl;
        ready = w.ready;
      } in
      let (h', e, r, q) = act_each-entered acts (with_line h line') (line ++ (ch ∷ [])) w' t.1 in
      (
        h',
        acted_each-step (presses (char_key ch)) acts h (with_line h line')
            (act-char h line ch w t.0) e,
        r,
        q,
      )
  act_each-entered (presses newline_key ∷ acts) h line w t =
      let (w', kept) = with_entered-IsTyping h line w in
      let rest = map with_line_feed (entered [] (keys_of acts)) in
      let (h', e, r, q) = act_each-entered acts (with_entered h) [] w' t.1 in
      (
        h',
        acted_each-step (presses newline_key) acts h (with_entered h) (act-newline h line w) e,
        r,
        q
            ∙ ap (λ l. l ++ rest) kept
            ∙ append_assoc (all_inputs h.loop) (with_line_feed line ∷ []) rest,
      )
  act_each-entered (presses other ∷ acts) h line w t = absurd t.0
  act_each-entered (ends ∷ acts) h line w t =
      let (h', e, r, q) = act_each-entered acts h line w t in
      (h', acted_each-step ends acts h h (act-ends h w.running) e, r, q)
  act_each-entered (loops goes_on ∷ acts) h line w t =
      let (ready, kept) = runs-inputs h.loop goes_on w.ready in
      let h1 = record h { loop = step h.loop (runs goes_on) } in
      let w' : IsTyping h1 line = record {
        running = w.running;
        reads = w.reads;
        typed = w.typed;
        at_end = w.at_end;
        ready = ready;
      } in
      let (h', e, r, q) = act_each-entered acts h1 line w' t in
      (
        h',
        acted_each-step (loops goes_on) acts h h1 (act-loops h goes_on) e,
        r,
        q ∙ ap (λ l. l ++ map with_line_feed (entered line (keys_of acts))) kept,
      )

  -- In a program as `run_server_loop` constructs it, from any disk and any arguments: where the
  -- keys that the console's thread reads are those of the bytes of some lines, each with its line
  -- feed, and the lines hold only printable bytes that are no command of the console, then in every
  -- interleaving with the steps of the loop no key fails, the loop never waits in a `pop`, and the
  -- inputs that the engine was given, with those still queued, are exactly the lines, each with its
  -- line feed, in their order.
  pub entered-all_inputs :
      (disk : Disk) (args : Text) (lines : List Text) (fuel : ℕ) (acts : List Act)
      → ArePlainLines str lines
      → length (join_lines lines) ≤ fuel
      → keys_of acts ≡ read_keys fuel (join_lines lines)
      → (h : Hlds) × (acted_each acts (construct str io disk args) ≡ some h)
        × IsReady h.loop
        × (all_inputs h.loop ≡ map with_line_feed lines)
  unfolding construct
  entered-all_inputs disk args lines fuel acts plain enough read =
      let keys = typing_lines lines in
      let bytes = codes-typing_lines lines in
      let found : keys_of acts ≡ keys =
        read
        ∙ ap (read_keys fuel) (sym bytes)
        ∙ read_keys-codes keys fuel (AreTyped-typing_lines str lines plain)
            (subst (λ s. length s ≤ fuel) (sym bytes) enough) in
      let (h, e, r, q) =
        act_each-entered acts (construct str io disk args) []
          (record { running = refl; reads = refl; typed = refl; at_end = refl; ready = tt })
          (subst (AllType str) (sym found) (AllType-typing_lines str lines plain)) in
      (
        h,
        e,
        r,
        q
            ∙ ap₂ (λ l ks. l ++ map with_line_feed (entered [] ks)) (init_server_loop-queue args)
                found
            ∙ ap (map with_line_feed) (entered-typing_lines lines),
      )
