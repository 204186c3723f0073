-- ===== src/CmdLine/Remove.antt =====
-- Taking an argument out.
use rehlds_m.Base.{
  ℕ, zero, suc, ◌+◌, ◌-◌, ◌≤◌, ◌<◌, ◌≡◌, sym, ap, ◌∙◌, subst, inl, inr, false, Option-cases, none,
  some, ◌∷◌, length, length-append, length-take, length-drop, take, drop, Text, arith,
}
use rehlds_m.CmdLine.{
  later, rfind, remove_argument_prefix, find_argument_pos, is_some, contains, get_argument_option,
  option_length, erase_argument, remove_found, remove,
}
use rehlds_m.CmdLine.Find.{LiesIn, find_argument_pos-LiesIn}

length-erase_argument :
    (arguments arg : Text) (pos : ℕ)
    → pos < length arguments
    → length (erase_argument arguments arg pos) < length arguments
unfolding erase_argument
length-erase_argument arguments arg pos h =
    let count = 1 + length arg + 1 + option_length (get_argument_option arguments arg (some pos)) in
    omega (
      arith,
      h,
      length-append (take (pos - 1) arguments) (drop (pos - 1 + count) arguments),
      length-take (pos - 1) arguments,
      length-drop (pos - 1 + count) arguments,
    )

remove_found-all :
    (fuel : ℕ) (arguments arg : Text)
    → length arguments ≤ fuel
    → find_argument_pos (remove_found fuel arguments arg) arg ≡ none
unfolding remove_found
remove_found-all zero arguments arg h = elim (Option-cases (find_argument_pos arguments arg)) [
  | inl e ↦ e
  | inr (pos, e) ↦ absurd (
      omega (
        arith,
        h,
        subst (λ o. LiesIn o (suc (length (remove_argument_prefix arg))) arguments) e
            (find_argument_pos-LiesIn arguments arg),
      ))
]
remove_found-all (suc fuel) arguments arg h =
    elim (Option-cases (find_argument_pos arguments arg)) [
      | inl e ↦ rw (e, remove_found) e
      | inr (pos, e) ↦
          let here =
            subst (λ o. LiesIn o (suc (length (remove_argument_prefix arg))) arguments) e
              (find_argument_pos-LiesIn arguments arg) in
          rw (e, remove_found)
            (remove_found-all fuel (erase_argument arguments arg pos) arg
              (omega (arith, h, length-erase_argument arguments arg pos (omega (arith, here)))))
    ]

-- The loop of `remove` ends, and after it the argument is not contained: for every text of
-- arguments, and every argument whose name does not begin with another prefix.
pub contains-remove :
    (arguments arg : Text)
    → remove_argument_prefix (remove_argument_prefix arg) ≡ remove_argument_prefix arg
    → contains (remove arguments arg) arg ≡ false
unfolding contains remove find_argument_pos
contains-remove arguments arg h =
    ap
      (λ name. is_some (
        later (rfind (b'+' ∷ name) (remove arguments arg))
          (rfind (b'-' ∷ name) (remove arguments arg))))
      (sym h)
    ∙ ap is_some
        (remove_found-all (length arguments) arguments (remove_argument_prefix arg) (omega arith))
