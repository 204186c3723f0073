-- ===== src/Console/Session.antt =====
-- A session: the keys pressed one after the other, and the bytes that a terminal gets.
use rehlds_m.Base.{
  ℕ, ◌≡◌, sym, subst, inl, inr, true, false, ◌==◌, Bool-cases, Option, none, some, List, [], ◌∷◌,
  Text, arith,
}
use rehlds_m.Stringpy.{Stringpy}
use rehlds_m.File.{Stream}
use rehlds_m.History.{is_valid_input}
use rehlds_m.History.Inv.{
  IsConsistent, append-IsConsistent, previous-IsConsistent, next-IsConsistent,
}
use rehlds_m.History.Recalled.{GivesValid, previous-GivesValid, next-GivesValid}
use rehlds_m.Presenter.{InputPresenter, history_previous, history_next, enqueue_input}
use rehlds_m.Console.{
  ConsoleInput, Output, save_once, down_line, clear_input, show_previous, show_next,
  handle_up_arrow, handle_down_arrow, handle_newline,
}
use rehlds_m.Console.Complete.{common_prefix}
use rehlds_m.Console.Terminal.{Screen, emit, is_control, IsPlain}
use rehlds_m.Console.Display.{Shows, IsEditing}
use rehlds_m.Console.Editing.{Keeps, Keeps-same}
use rehlds_m.Console.Recall.{clear_input-at_end, handle_newline-Keeps, shown_anew}

-- The documented behaviour that the display relies on: what counts as printable holds no byte that
-- moves a terminal's cursor.
pub record PlainLaws (str : Stringpy) : Type 0 where
  pub plain_char : (ch : ℕ) → str.is_printable_char ch ≡ true → is_control ch ≡ false
  pub plain_text : (s : Text) → str.is_printable s ≡ true → IsPlain s

abbrev pub MaybePlain : Option Text → Type 0
MaybePlain none = Unit {0}
MaybePlain (some text) = IsPlain text

abbrev pub ArePlain : List Text → Type 0
ArePlain [] = Unit {0}
ArePlain (s ∷ ss) = IsPlain s × ArePlain ss

module _ (str : Stringpy) (laws : PlainLaws str) where
  pub record IsWorking (c : ConsoleInput) : Type 0 where
    pub editing : IsEditing c
    pub saved : MaybePlain c.saved_input
    pub consistent : IsConsistent str c.input_presenter.input_history

  valid-IsPlain : (s : Text) → is_valid_input str s ≡ true → IsPlain s
  unfolding is_valid_input
  valid-IsPlain s h = laws.plain_text s (ground arith)

  MaybePlain-given : (s : Option Text) → GivesValid str s → MaybePlain s
  MaybePlain-given none h = tt
  MaybePlain-given (some s) h = valid-IsPlain s h

  MaybePlain-save_once :
      (s : Option Text) (line : Text) → MaybePlain s → IsPlain line → MaybePlain (save_once s line)
  MaybePlain-save_once none line h p = p
  MaybePlain-save_once (some s) line h p = h

  history_previous-MaybePlain :
      (p : InputPresenter)
      → IsConsistent str p.input_history
      → MaybePlain (history_previous p).0 × IsConsistent str (history_previous p).1.input_history
  unfolding history_previous
  history_previous-MaybePlain p w =
      (MaybePlain-given _ (previous-GivesValid str p.input_history w), previous-IsConsistent str w)

  history_next-MaybePlain :
      (p : InputPresenter)
      → IsConsistent str p.input_history
      → MaybePlain (history_next p).0 × IsConsistent str (history_next p).1.input_history
  unfolding history_next
  history_next-MaybePlain p w =
      (MaybePlain-given _ (next-GivesValid str p.input_history w), next-IsConsistent str w)

  pub common_prefix-IsPlain : (s u : Text) → IsPlain s → IsPlain (common_prefix s u)
  unfolding common_prefix
  common_prefix-IsPlain [] u p = tt
  common_prefix-IsPlain (a ∷ s) [] p = tt
  common_prefix-IsPlain (a ∷ s) (b ∷ u) p = elim (Bool-cases (a == b)) [
    | inl e ↦ rw (e, common_prefix) (p.0, common_prefix-IsPlain s u p.1)
    | inr e ↦ rw (e, common_prefix) tt
  ]

  abbrev PlainPair : Option (Text × Option Text) → Type 0
  PlainPair none = Unit {0}
  PlainPair (some (text, saved)) = IsPlain text × MaybePlain saved

  PlainPair-down_line :
      (o saved : Option Text) → MaybePlain o → MaybePlain saved → PlainPair (down_line o saved)
  PlainPair-down_line (some text) saved m q = (m, q)
  PlainPair-down_line none (some text) m q = (q, tt)
  PlainPair-down_line none none m q = tt

  -- What a key leaves of a session.
  abbrev pub Remains : Screen → ConsoleInput × Output → Type 0
  Remains t (c, out) = IsWorking c × Shows (emit t out) c

  module _ (t : Screen) (c : ConsoleInput) (w : IsWorking c) (s : Shows t c) where
    pub kept_by :
        (r : ConsoleInput × Output)
        → Keeps t r
        → MaybePlain r.0.saved_input
        → IsConsistent str r.0.input_presenter.input_history
        → Remains t r
    kept_by r k m i = (record { editing = k.0; saved = m; consistent = i }, k.1)

    show_previous-Remains : (o : Option Text) → MaybePlain o → Remains t (show_previous c o)
    unfolding show_previous
    show_previous-Remains none m = kept_by _ (Keeps-same t c w.editing s) w.saved w.consistent
    show_previous-Remains (some text) m =
        let c' = record c { saved_input = save_once c.saved_input c.input_line } in
        let v : IsEditing c' = record { inside = w.editing.inside; plain = w.editing.plain } in
        kept_by _ (shown_anew t c' v s (clear_input c').0 text m)
          (subst (λ d. MaybePlain d.saved_input) (sym (clear_input-at_end c' v))
            (MaybePlain-save_once c.saved_input c.input_line w.saved w.editing.plain))
          (subst (λ d. IsConsistent str d.input_presenter.input_history)
            (sym (clear_input-at_end c' v)) w.consistent)

    show_next-Remains : (o : Option (Text × Option Text)) → PlainPair o → Remains t (show_next c o)
    unfolding show_next
    show_next-Remains none m = kept_by _ (Keeps-same t c w.editing s) w.saved w.consistent
    show_next-Remains (some (text, saved)) m =
        kept_by _
          (shown_anew t c w.editing s (record (clear_input c).0 { saved_input = saved }) text m.0)
          m.1
          (subst (λ d. IsConsistent str d.input_presenter.input_history)
            (sym (clear_input-at_end c w.editing)) w.consistent)

    pub handle_newline-Remains : (io : Stream) → Remains t (handle_newline str io c)
    unfolding handle_newline enqueue_input
    handle_newline-Remains io =
        kept_by _ (handle_newline-Keeps t c w.editing s str io) w.saved
          (append-IsConsistent str c.input_line w.consistent)

  module _ (t : Screen) (c : ConsoleInput) (w : IsWorking c) (s : Shows t c) where
    with_presenter :
        (p : InputPresenter)
        → IsConsistent str p.input_history
        → IsWorking (record c { input_presenter = p })
    with_presenter p i = record {
      editing = record { inside = w.editing.inside; plain = w.editing.plain };
      saved = w.saved;
      consistent = i;
    }

    pub handle_up_arrow-Remains : Remains t (handle_up_arrow c)
    unfolding handle_up_arrow
    handle_up_arrow-Remains =
        let (m, i) = history_previous-MaybePlain c.input_presenter w.consistent in
        let p = (history_previous c.input_presenter).1 in
        show_previous-Remains t (record c { input_presenter = p }) (with_presenter p i) s
          (history_previous c.input_presenter).0 m

    pub handle_down_arrow-Remains : Remains t (handle_down_arrow c)
    unfolding handle_down_arrow
    handle_down_arrow-Remains =
        let (m, i) = history_next-MaybePlain c.input_presenter w.consistent in
        let p = (history_next c.input_presenter).1 in
        show_next-Remains t (record c { input_presenter = p }) (with_presenter p i) s
          (down_line (history_next c.input_presenter).0 c.saved_input)
          (PlainPair-down_line (history_next c.input_presenter).0 c.saved_input m w.saved)
