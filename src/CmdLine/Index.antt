-- ===== src/CmdLine/Index.antt =====
-- libs/core/src/core/cmdline_args.cpp: the search among the arguments of `main` themselves,
-- `extract_cmdline_args`, `CmdLineArgs::find_argument_index` and the static `contains`, and what it
-- has to do with the text that is built of them. The comparison, `Util::str::equal`, is a parameter.
use mathlib.Core.Bool.{false≢true}
use rehlds_m.Base.{
  ap₂, ◌⊎◌, subst, suc, ℕ, ◌+◌, ◌≡◌, refl, sym, ap, ◌∙◌, inl, inr, Bool, Bool-cases, true, false,
  ◌||◌, if◌then◌else◌, Option, none, some, List, [], ◌∷◌, ◌++◌, append_assoc, drop, Text,
}
use rehlds_m.Stringpy.{Stringpy, TrimLaws, AreSpaces}
use rehlds_m.File.{Disk, Stream}
use rehlds_m.CmdLine.{
  is_some, remove_argument_prefix, later, find_argument_pos, contains, is_skipped,
  from_command_line,
}
use rehlds_m.CmdLine.Find.{rfind-append, contains-append}
use rehlds_m.CmdLine.Include.{AreDirect, spaced, build_arguments_string-direct}

abbrev pub extract_cmdline_args : List Text → List Text
extract_cmdline_args argv = drop 1 argv

module _ (equal : Text → Text → Bool) where
  -- The loop from an index on.
  unfoldable pub index_from : Text → ℕ → List Text → Option ℕ
  index_from name i [] = none
  index_from name i (arg ∷ args) =
      let rest = index_from name (i + 1) args in
      if equal arg (b'-' ∷ name) || equal arg (b'+' ∷ name) then some i else rest

  -- None is -1.
  unfoldable pub find_argument_index : List Text → Text → Option ℕ
  unfolding index_from
  find_argument_index argv arg =
      index_from (remove_argument_prefix arg) 1 (extract_cmdline_args argv)

  unfoldable pub contains_arg : List Text → Text → Bool
  unfolding find_argument_index
  contains_arg argv arg = is_some (find_argument_index argv arg)

abbrev head_or : ℕ → Text → ℕ
head_or d [] = d
head_or d (c ∷ s) = c

abbrev is_nil : Text → Bool
is_nil [] = true
is_nil (c ∷ s) = false

-- The last byte, if there is one, is no space.
module _ (is_space : ℕ → Bool) where
  abbrev pub IsSolid : Text → Type 0
  IsSolid [] = Unit {0}
  IsSolid (c ∷ []) = is_space c ≡ false
  IsSolid (c ∷ d ∷ s) = IsSolid (d ∷ s)

  pub IsSolid-append : (b w : Text) (c : ℕ) → IsSolid (c ∷ w) → IsSolid (b ++ (c ∷ w))
  IsSolid-append [] w c h = h
  IsSolid-append (d ∷ []) w c h = h
  IsSolid-append (d ∷ e ∷ b) w c h = IsSolid-append (e ∷ b) w c h

  pub strip_front :
      (p xs before tail : Text) (sign : ℕ)
      → AreSpaces is_space p
      → is_space sign ≡ false
      → p ++ xs ≡ before ++ (sign ∷ tail)
      → (b : Text) × (xs ≡ b ++ (sign ∷ tail))
  strip_front [] xs before tail sign h k e = (before, e)
  strip_front (c ∷ p) xs [] tail sign h k e =
      absurd (false≢true (sym k ∙ sym (ap (λ q. is_space (head_or 0 q)) e) ∙ h.0))
  strip_front (c ∷ p) xs (d ∷ before) tail sign h k e =
      strip_front p xs before tail sign h.1 k (ap (drop 1) e)

  spaces-IsSolid :
      (w rest t : Text) (c : ℕ) → AreSpaces is_space t → t ≡ (c ∷ w) ++ rest → ¬ IsSolid (c ∷ w)
  spaces-IsSolid w rest [] c h e k = absurd (false≢true (sym (ap is_nil e)))
  spaces-IsSolid [] rest (d ∷ t) c h e k =
      false≢true (sym k ∙ sym (ap (λ q. is_space (head_or 0 q)) e) ∙ h.0)
  spaces-IsSolid (a ∷ w) rest (d ∷ t) c h e k = spaces-IsSolid w rest t a h.1 (ap (drop 1) e) k

  pub strip_back :
      (xs t w rest : Text)
      → AreSpaces is_space t
      → IsSolid w
      → xs ++ t ≡ w ++ rest
      → (r : Text) × (xs ≡ w ++ r)
  strip_back xs t [] rest h k e = (xs, refl)
  strip_back [] t (c ∷ w) rest h k e = absurd (spaces-IsSolid w rest t c h e k)
  strip_back (x ∷ xs) t (c ∷ w) rest h k e =
      let (r, e') = strip_back xs t w rest h (IsSolid-tail c w k) (ap (drop 1) e) in
      (r, ap₂ (λ a q. a ∷ q) (ap (head_or 0) e) e')
    where
      IsSolid-tail : (c : ℕ) (w : Text) → IsSolid (c ∷ w) → IsSolid w
      IsSolid-tail c [] k = tt
      IsSolid-tail c (d ∷ w) k = k

-- With either sign in front of its name, an argument counts as contained.
contains-signed :
    (sign : ℕ) (before arg rest : Text)
    → (sign ≡ b'-') ⊎ (sign ≡ b'+')
    → contains (before ++ ((sign ∷ remove_argument_prefix arg) ++ rest)) arg ≡ true
unfolding contains find_argument_pos
contains-signed sign before arg rest (inl e) =
    subst (λ c. contains (before ++ ((c ∷ remove_argument_prefix arg) ++ rest)) arg ≡ true) (sym e)
      (contains-append before arg rest)
contains-signed sign before arg rest (inr e) =
    subst (λ c. contains (before ++ ((c ∷ remove_argument_prefix arg) ++ rest)) arg ≡ true) (sym e)
      (is_some-later_left _ _ (rfind-append before (b'+' ∷ remove_argument_prefix arg) rest))
  where
    is_some-later_left : (o₁ o₂ : Option ℕ) → is_some o₁ ≡ true → is_some (later o₁ o₂) ≡ true
    is_some-later_left none o₂ h = absurd (false≢true h)
    is_some-later_left (some pos₁) none h = refl
    is_some-later_left (some pos₁) (some pos₂) h = refl

module _ (str : Stringpy) (laws : TrimLaws str) (io : Stream) (disk : Disk)
    (equal : Text → Text → Bool) (equal_same : (s t : Text) → equal s t ≡ true → s ≡ t) where
  index_from-missed :
      (name : Text) (i : ℕ) (arg : Text) (args : List Text)
      → equal arg (b'-' ∷ name) ≡ false
      → equal arg (b'+' ∷ name) ≡ false
      → index_from equal name i (arg ∷ args) ≡ index_from equal name (i + 1) args
  unfolding index_from
  index_from-missed name i arg args e f = rw (e, f, index_from) refl

  -- Where an argument is found, the text before the trimming has it, with its sign and a space.
  spaced-index_from :
      (c : ℕ) (s : Text) (i : ℕ) (args : List Text)
      → is_some (index_from equal (c ∷ s) i args) ≡ true
      → (sign : ℕ) × ((sign ≡ b'-') ⊎ (sign ≡ b'+'))
        × (before : Text) × (after : Text) × (spaced str io disk args
            ≡ before ++ (sign ∷ (c ∷ s) ++ after))
  unfolding index_from
  spaced-index_from c s i [] h = absurd (false≢true h)
  spaced-index_from c s i (arg ∷ args) h = elim (Bool-cases (equal arg (b'-' ∷ c ∷ s))) [
    | inl e ↦ (
      b'-',
      inl refl,
      [],
      b' ' ∷ spaced str io disk args,
      ap
          (λ a.
            if is_skipped str io disk a
            then spaced str io disk args
            else a ++ (b' ' ∷ spaced str io disk args))
          (equal_same arg (b'-' ∷ c ∷ s) e),
    )
    | inr e ↦ elim (Bool-cases (equal arg (b'+' ∷ c ∷ s))) [
      | inl f ↦ (
        b'+',
        inr refl,
        [],
        b' ' ∷ spaced str io disk args,
        ap
            (λ a.
              if is_skipped str io disk a
              then spaced str io disk args
              else a ++ (b' ' ∷ spaced str io disk args))
            (equal_same arg (b'+' ∷ c ∷ s) f),
      )
      | inr f ↦
          let (sign, which, before, after, same) =
            spaced-index_from c s (i + 1) args
              (ap is_some (sym (index_from-missed (c ∷ s) i arg args e f)) ∙ h) in
          elim (Bool-cases (is_skipped str io disk arg)) [
            | inl k ↦ (sign, which, before, after, rw k same)
            | inr k ↦ (
              sign,
              which,
              arg ++ (b' ' ∷ before),
              after,
              rw k (
                  ap (λ q. arg ++ (b' ' ∷ q)) same
                  ∙ sym (append_assoc arg (b' ' ∷ before) (sign ∷ (c ∷ s) ++ after))),
            )
          ]
    ]
  ]

  no_sign_space : (sign : ℕ) → (sign ≡ b'-') ⊎ (sign ≡ b'+') → laws.is_space sign ≡ false
  no_sign_space sign (inl e) = ap laws.is_space e ∙ laws.no_minus
  no_sign_space sign (inr e) = ap laws.is_space e ∙ laws.no_plus

  -- What stands in a text with a sign in front, and with no space at the end, is there after trimming.
  trim-keeps :
      (text before name after : Text) (sign : ℕ)
      → laws.is_space sign ≡ false
      → IsSolid laws.is_space (sign ∷ name)
      → text ≡ before ++ ((sign ∷ name) ++ after)
      → (b : Text) × (r : Text) × (str.trim text ≡ b ++ ((sign ∷ name) ++ r))
  trim-keeps text before name after sign k solid e =
      let (p, t, front, back, cut) = laws.takes_spaces text in
      let (b, e') =
        strip_front laws.is_space p (str.trim text ++ t) before (name ++ after) sign front k
          (sym cut ∙ e) in
      let (r, e'') =
        strip_back laws.is_space (str.trim text) t (b ++ (sign ∷ name)) after back
          (IsSolid-append laws.is_space b name sign solid)
          (e' ∙ sym (append_assoc b (sign ∷ name) after)) in
      (b, r, e'' ∙ append_assoc b (sign ∷ name) r)

  -- What is found among the arguments of `main` is contained in the text that is built of them, if
  -- none of them names a file, for every name that is not empty and does not end in a space.
  pub contains-from_command_line :
      (argv : List Text) (arg s : Text) (c depth : ℕ)
      → AreDirect str io disk (extract_cmdline_args argv)
      → remove_argument_prefix arg ≡ c ∷ s
      → IsSolid laws.is_space (c ∷ s)
      → contains_arg equal argv arg ≡ true
      → (text : Text) × (from_command_line str io disk (suc depth) argv ≡ some text)
        × (contains text arg ≡ true)
  unfolding contains_arg find_argument_index from_command_line
  contains-from_command_line argv arg s c depth direct name solid h =
      let args = extract_cmdline_args argv in
      let found = ap (λ n. is_some (index_from equal n 1 args)) (sym name) ∙ h in
      let (sign, which, before, after, same) = spaced-index_from c s 1 args found in
      let (b, r, kept) =
        trim-keeps (spaced str io disk args) before (c ∷ s) after sign (no_sign_space sign which)
          solid same in
      (
        str.trim (spaced str io disk args),
        build_arguments_string-direct str io disk depth args direct,
        ap (λ text. contains text arg) kept
            ∙ ap (λ n. contains (b ++ ((sign ∷ n) ++ r)) arg) (sym name)
            ∙ contains-signed sign b arg r which,
      )
