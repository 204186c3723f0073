-- ===== src/History/Navigation.antt =====
-- Going back and forth through the input history.
use mathlib.Core.List.{reverse, reverse-append}
use rehlds_m.Base.{
  ℕ, zero, suc, ◌-◌, ◌<◌, ◌≡◌, refl, sym, ap, ap₂, ◌∙◌, if◌then◌else◌, ltb, Option, some, none,
  List, [], ◌∷◌, ◌++◌, map, arith, Text, length, take, get_or, take-length, take-suc,
}
use rehlds_m.Stringpy.{Stringpy}
use rehlds_m.CircularBuffer.{CircularBuffer, size}
use rehlds_m.CircularBuffer.Refine.{length-contents}
use rehlds_m.CircularBuffer.Reads.{elem_at-contents}
use rehlds_m.History.{history_capacity, UserInputHistory, next, previous, entry, append}
use rehlds_m.History.Emplace.{fits, entries, IsSound}
use rehlds_m.History.Inv.{IsConsistent, append-IsConsistent}

pub entry-entries :
    {b : CircularBuffer Text} (i : ℕ)
    → IsSound b
    → i < size history_capacity b
    → entry b i ≡ get_or (entries b) i []
entry-entries i v h = elem_at-contents history_capacity fits [] v i h

module _ (str : Stringpy) where
  previous_entry :
      (h : UserInputHistory)
      → IsConsistent str h
      → 0 < h.position
      → previous h ≡ (
        some (get_or (entries h.history) (h.position - 1) []),
        record h { position = h.position - 1 },
      )
  unfolding previous
  previous_entry h c p = ground (arith, entry-entries {b = h.history} (h.position - 1) c.sound)

  -- What `next` gives, at every position: it undoes `previous`, giving the entry that stood there,
  -- and none where that was the end.
  pub next-previous :
      (h : UserInputHistory)
      → IsConsistent str h
      → 0 < h.position
      → next (previous h).1 ≡ (
        (if ltb h.position (size history_capacity h.history)
            then some (get_or (entries h.history) h.position [])
            else none),
        h,
      )
  unfolding next previous
  next-previous h c p = ground (arith, entry-entries {b = h.history} h.position c.sound)

-- The results of as many calls of `previous`.
unfoldable pub walk_back : ℕ → UserInputHistory → List (Option Text)
walk_back zero h = []
walk_back (suc n) h = (previous h).0 ∷ walk_back n (previous h).1

newest_first :
    (q : List Text) (n : ℕ)
    → n < length q
    → ◌≡◌ {A = List (Option Text)}
        (some (get_or q n []) ∷ map some (reverse (take n q)))
        (map some (reverse (take (suc n) q)))
newest_first q n h =
    ap (λ r. map some r) (sym (reverse-append (take n q) (get_or q n [] ∷ [])))
    ∙ ap (λ r. map some (reverse r)) (sym (take-suc q n [] h))

module _ (str : Stringpy) where
  moved :
      {h : UserInputHistory}
      → IsConsistent str h
      → IsConsistent str (record h { position = h.position - 1 })
  moved c = record { sound = c.sound; bounded = omega arith; kept = c.kept }

  previous-none : (h : UserInputHistory) → h.position ≡ 0 → (previous h).0 ≡ none
  unfolding previous
  previous-none h e = ground arith

  walk_from :
      (n : ℕ) (h : UserInputHistory)
      → IsConsistent str h
      → h.position ≡ n
      → walk_back (suc n) h ≡ map some (reverse (take n (entries h.history))) ++ (none ∷ [])
  unfolding walk_back
  walk_from zero h c e = ap (λ o. o ∷ []) (previous-none h e)
  walk_from (suc n) h c e =
      ap₂ ◌∷◌ (ap (λ r. r.0) back) (
        ap (λ r. walk_back (suc n) r.1) back
        ∙ walk_from n (record h { position = h.position - 1 }) (moved c) (omega arith))
      ∙ ap (λ r. r ++ (none ∷ []))
          (ap (λ k. some (get_or q k []) ∷ map some (reverse (take n q))) (omega arith)
            ∙ newest_first q n (omega (arith, length-contents history_capacity [] h.history)))
    where
      q : List Text
      q = entries h.history

      back :
          previous h ≡ (some (get_or q (h.position - 1) []), record h { position = h.position - 1 })
      back = previous_entry str h c (omega arith)

  append_position :
      (h : UserInputHistory) (input : Text)
      → (append str h input).position ≡ size history_capacity (append str h input).history
  unfolding append
  append_position h input = refl

  -- After an input is entered, calling `previous` once for each entry gives all the entries, newest
  -- first, and one more call gives none.
  pub walk_back-append :
      (h : UserInputHistory) (input : Text)
      → IsConsistent str h
      → let h' = append str h input in
        walk_back (suc (size history_capacity h'.history)) h'
        ≡ map some (reverse (entries h'.history)) ++ (none ∷ [])
  walk_back-append h input c =
      walk_from (size history_capacity h'.history) h' (append-IsConsistent str input c) at_end
      ∙ ap (λ q. map some (reverse q) ++ (none ∷ []))
          (take-length (entries h'.history) (size history_capacity h'.history)
            (omega (arith, length-contents history_capacity [] h'.history)))
    where
      h' : UserInputHistory
      h' = append str h input

      at_end : h'.position ≡ size history_capacity h'.history
      at_end = append_position h input
