-- ===== src/ConsoleCommands/Matches.antt =====
-- What is found, compared with the objects that the engine adds.
use mathlib.Core.List.{Perm, map}
use mathlib.Core.List.Perm
use rehlds_m.Base.{
  ℕ, ◌≡◌, refl, sym, ap, ◌∙◌, subst, inl, inr, Bool, not, ◌&&◌, if◌then◌else◌, ◌==◌, Bool-cases,
  Option, none, some, List, [], ◌∷◌, ◌++◌, append-nil, append_assoc, Text, arith,
}
use rehlds_m.Stringpy.{Stringpy}
use rehlds_m.ObjectList.{ObjectList, null, fresh, add, add_tail}
use rehlds_m.ConsoleCommands.{
  is_nil, add_each, command_match, collect_matches, find_command_matches, sort,
}
use rehlds_m.ConsoleCommands.Sort.{sort-AreSorted, sort-Perm}
use rehlds_m.Console.Complete.Order.{AreSorted}

-- Every object that is added is iterated over, in the order of the additions.
container-add_each :
    (l : ObjectList) (objects : List ℕ) → (add_each l objects).container ≡ l.container ++ objects
unfolding add_each add add_tail
container-add_each l [] = sym (append-nil l.container)
container-add_each l (object ∷ objects) =
    container-add_each (add l object).1 objects ∙ append_assoc l.container (object ∷ []) objects

abbrev pub keep : (ℕ → Bool) → List ℕ → List ℕ
keep p [] = []
keep p (object ∷ objects) = if p object then object ∷ keep p objects else keep p objects

-- The objects that the engine is asked for.
abbrev pub asked : Option (Text → List ℕ) → Text → List ℕ
asked none command = []
asked (some get_command_matches) command =
    if is_nil command then [] else get_command_matches command

module _ (str : Stringpy) (text_at : ℕ → Text) where
  -- A pointer to a text that is more than the characters that trimming takes off.
  abbrev pub is_match : ℕ → Bool
  is_match object =
      not (object == null)
      && (not (is_nil (text_at object)) && not (is_nil (str.trim (text_at object))))

  abbrev pub clean : ℕ → Text
  clean object = str.to_lower (str.trim (text_at object))

  command_match_cases :
      (object : ℕ)
      → command_match str text_at object ≡ (if is_match object then clean object ∷ [] else [])
  unfolding command_match
  command_match_cases object = ground arith

  collect_matches-keep :
      (objects : List ℕ) → collect_matches str text_at objects ≡ map clean (keep is_match objects)
  unfolding collect_matches
  collect_matches-keep [] = refl
  collect_matches-keep (object ∷ objects) =
      let ih = collect_matches-keep objects in
      elim (Bool-cases (is_match object)) [
        | inl e ↦
            rw (e, command_match_cases object, e, collect_matches) (ap (λ s. clean object ∷ s) ih)
        | inr e ↦ rw (e, command_match_cases object, e, collect_matches) ih
      ]

  -- For every engine, also none, and every text, also the empty one: what is found is sorted, and
  -- it is a rearrangement of the trimmed texts, in lower case, of the objects that the engine adds,
  -- without the null pointers and the texts of which trimming leaves nothing.
  pub find_command_matches-Perm :
      (engine : Option (Text → List ℕ)) (command : Text)
      → let found = find_command_matches str text_at engine command in
        AreSorted found × Perm found (map clean (keep is_match (asked engine command)))
  unfolding find_command_matches
  find_command_matches-Perm none command = (tt, Perm.rfl)
  find_command_matches-Perm (some engine) command = elim (Bool-cases (is_nil command)) [
    | inl e ↦ rw (e, find_command_matches) (tt, Perm.rfl)
    | inr e ↦
        rw (e, find_command_matches)
          (let same : collect_matches str text_at (add_each fresh (engine command)).container
                ≡ map clean (keep is_match (engine command)) =
              ap (collect_matches str text_at) (container-add_each fresh (engine command))
              ∙ collect_matches-keep (engine command) in
            (
              sort-AreSorted
                  (collect_matches str text_at (add_each fresh (engine command)).container),
              subst
                  (λ m.
                    Perm
                      (sort
                        (collect_matches str text_at (add_each fresh (engine command)).container))
                      m)
                  same
                  (sort-Perm
                    (collect_matches str text_at (add_each fresh (engine command)).container)),
            ))
  ]
