-- ===== src/History/Recalled.antt =====
-- What going through the history gives is an input that the history accepted.
use rehlds_m.Base.{
  ℕ, zero, suc, ◌+◌, ◌-◌, ◌<◌, ◌≡◌, ap, ◌∙◌, inl, inr, Bool-cases, true, if◌then◌else◌, ltb, Option,
  some, none, List, [], ◌∷◌, arith, Text, length, get_or,
}
use rehlds_m.Stringpy.{Stringpy}
use rehlds_m.CircularBuffer.{size}
use rehlds_m.CircularBuffer.Refine.{length-contents}
use rehlds_m.History.{history_capacity, UserInputHistory, next, previous, entry, is_valid_input}
use rehlds_m.History.Emplace.{entries}
use rehlds_m.History.Kept.{IsKept, IsKept-head, IsKept-tail}
use rehlds_m.History.Inv.{IsConsistent}
use rehlds_m.History.Navigation.{entry-entries}

module _ (str : Stringpy) where
  IsKept-get_or :
      (q : List Text) (i : ℕ)
      → IsKept str q
      → i < length q
      → is_valid_input str (get_or q i []) ≡ true
  IsKept-get_or [] i k h = absurd (omega arith)
  IsKept-get_or (x ∷ q) zero k h = IsKept-head str x q k
  IsKept-get_or (x ∷ q) (suc i) k h = IsKept-get_or q i (IsKept-tail str x q k) (omega arith)

  entry_valid :
      (h : UserInputHistory) (i : ℕ)
      → IsConsistent str h
      → i < size history_capacity h.history
      → is_valid_input str (entry h.history i) ≡ true
  entry_valid h i c p =
      ap (is_valid_input str) (entry-entries {b = h.history} i c.sound p)
      ∙ IsKept-get_or (entries h.history) i c.kept
          (omega (arith, p, length-contents history_capacity [] h.history))

  -- The text that a step gives, if it gives one.
  abbrev pub GivesValid : Option Text → Type 0
  GivesValid none = Unit {0}
  GivesValid (some text) = is_valid_input str text ≡ true

  pub previous-GivesValid : (h : UserInputHistory) → IsConsistent str h → GivesValid (previous h).0
  unfolding previous
  previous-GivesValid h c = elim (Bool-cases (ltb 0 h.position)) [
    | inl e ↦ rw (e) (entry_valid h (h.position - 1) c (ground (arith, c.bounded)))
    | inr e ↦ rw (e) tt
  ]

  pub next-GivesValid : (h : UserInputHistory) → IsConsistent str h → GivesValid (next h).0
  unfolding next
  next-GivesValid h c =
      let n = size history_capacity h.history in
      let p = if ltb h.position n then h.position + 1 else h.position in
      elim (Bool-cases (ltb p n)) [
        | inl e ↦ rw (e) (entry_valid h p c (ground arith))
        | inr e ↦ rw (e) tt
      ]
