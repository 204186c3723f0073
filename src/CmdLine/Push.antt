-- ===== src/CmdLine/Push.antt =====
-- What is put among the arguments is found there again.
use rehlds_m.Base.{
  ℕ, suc, ◌+◌, ◌<◌, ◌≡◌, refl, sym, ap, ◌∙◌, Bool, true, false, ◌==◌, if◌then◌else◌, Option, none,
  some, [], ◌∷◌, ◌++◌, append-nil, append_assoc, length, length-append, drop, drop-append_length,
  ap₂, subst, Text, starts_with, arith,
}
use rehlds_m.Stringpy.{Stringpy, TrimLaws}
use rehlds_m.CmdLine.{
  space, rfind, later, find_argument_pos, skip_spaces, up_to_space, option_in, get_argument_option,
  remove, is_valid_argument, push_back,
}
use rehlds_m.CmdLine.Find.{starts_with-append}
use rehlds_m.CmdLine.Index.{IsSolid, IsSolid-append, strip_front, strip_back}

abbrev pub HasNo : ℕ → Text → Type 0
HasNo c [] = Unit
HasNo c (ch ∷ s) = ((ch == c) ≡ false) × HasNo c s

==_sym : (a b : ℕ) → (a == b) ≡ false → (b == a) ≡ false
==_sym a b e = ground arith

HasNo-behind : (c d : ℕ) (s t : Text) → HasNo c (s ++ (d ∷ t)) → HasNo c t
HasNo-behind c d [] t (e, h) = h
HasNo-behind c d (ch ∷ s) t (e, h) = HasNo-behind c d s t h

rfind-none : (c : ℕ) (sub w : Text) → HasNo c w → rfind (c ∷ sub) w ≡ none
unfolding rfind
rfind-none c sub [] h = refl
rfind-none c sub (d ∷ w) (e, h) = rw (rfind-none c sub w h, ==_sym d c e) refl

-- An occurrence behind the first byte, or one there.
abbrev shifted : Option ℕ → Bool → Option ℕ
shifted o b = elim o [ some pos ↦ some (suc pos) | none ↦ if b then some 0 else none ]

shifted-none : (o : Option ℕ) (b : Bool) → o ≡ none → b ≡ true → shifted o b ≡ some 0
shifted-none o b e f = rw (e, f) refl

-- The last occurrence is found.
rfind-last :
    (c : ℕ) (sub rest before : Text)
    → HasNo c (sub ++ rest)
    → rfind (c ∷ sub) (before ++ (c ∷ (sub ++ rest))) ≡ some (length before)
unfolding rfind
rfind-last c sub rest [] h =
    shifted-none (rfind (c ∷ sub) (sub ++ rest)) (starts_with (c ∷ sub) (c ∷ (sub ++ rest)))
      (rfind-none c sub (sub ++ rest) h) (starts_with-append (c ∷ sub) rest)
rfind-last c sub rest (d ∷ before) h = rw (rfind-last c sub rest before h, rfind) refl

abbrev IsBefore : Option ℕ → ℕ → Type 0
IsBefore none n = Unit
IsBefore (some pos) n = pos < n

shifted-IsBefore : (o : Option ℕ) (b : Bool) (n : ℕ) → IsBefore o n → IsBefore (shifted o b) (suc n)
shifted-IsBefore (some pos) b n h = omega (arith, h)
shifted-IsBefore none true n h = omega arith
shifted-IsBefore none false n h = tt

-- An occurrence begins before a part of the text that does not have its first byte.
rfind-IsBefore :
    (c : ℕ) (sub tail before : Text)
    → HasNo c tail
    → IsBefore (rfind (c ∷ sub) (before ++ tail)) (length before)
unfolding rfind
rfind-IsBefore c sub tail [] h = rw (rfind-none c sub tail h) tt
rfind-IsBefore c sub tail (d ∷ before) h =
    shifted-IsBefore (rfind (c ∷ sub) (before ++ tail)) _ (length before)
      (rfind-IsBefore c sub tail before h)

later-right : (o : Option ℕ) (n : ℕ) → IsBefore o n → later o (some n) ≡ some n
later-right none n h = refl
later-right (some pos) n h = ground (arith, h)

later-left : (o : Option ℕ) (n : ℕ) → IsBefore o n → later (some n) o ≡ some n
later-left none n h = refl
later-left (some pos) n h = ground (arith, h)

abbrev pub sign_of : Bool → ℕ
sign_of true = b'-'
sign_of false = b'+'

find_argument_pos-end :
    (minus : Bool) (before name rest : Text)
    → HasNo b'-' (name ++ rest)
    → HasNo b'+' (name ++ rest)
    → find_argument_pos (before ++ (sign_of minus ∷ (name ++ rest))) (sign_of minus ∷ name)
      ≡ some (length before)
unfolding find_argument_pos
find_argument_pos-end true before name rest m p = rw (rfind-last b'-' name rest before m) (
    later-right (rfind (b'+' ∷ name) (before ++ (b'-' ∷ (name ++ rest)))) (length before)
      (rfind-IsBefore b'+' name (b'-' ∷ (name ++ rest)) before (refl, p)))
find_argument_pos-end false before name rest m p = rw (rfind-last b'+' name rest before p) (
    later-left (rfind (b'-' ∷ name) (before ++ (b'+' ∷ (name ++ rest)))) (length before)
      (rfind-IsBefore b'-' name (b'+' ∷ (name ++ rest)) before (refl, m)))

up_to_space-word : (s : Text) → HasNo space s → up_to_space s ≡ s
up_to_space-word [] h = refl
up_to_space-word (c ∷ s) (e, h) = rw e (ap (λ t. c ∷ t) (up_to_space-word s h))

option_in-word :
    (o : ℕ) (option : Text)
    → HasNo space (o ∷ option)
    → HasNo b'-' (o ∷ option)
    → HasNo b'+' (o ∷ option)
    → option_in (skip_spaces (o ∷ option)) ≡ some (o ∷ option)
option_in-word o option h m p = rw (h.0, m.0, p.0, up_to_space-word option h.1) (rw h.0 refl)

-- Behind an argument at the end of the text stands its option.
get_argument_option-end :
    (before arg option : Text)
    → get_argument_option (before ++ (arg ++ (space ∷ option))) arg (some (length before))
      ≡ option_in (skip_spaces option)
unfolding get_argument_option
get_argument_option-end before arg option =
    let front = before ++ (arg ++ (space ∷ [])) in
    let n : length before + length arg + 1 ≡ length front =
      omega (arith, length-append before (arg ++ (space ∷ [])), length-append arg (space ∷ [])) in
    let t : before ++ (arg ++ (space ∷ option)) ≡ front ++ option =
      ap (λ q. before ++ q) (sym (append_assoc arg (space ∷ []) option))
      ∙ sym (append_assoc before (arg ++ (space ∷ [])) option) in
    ap₂ (λ k q. option_in (skip_spaces (drop k q))) n t
    ∙ ap (λ q. option_in (skip_spaces q)) (drop-append_length front option)

length-nil : (r : Text) (n : ℕ) → n ≡ n + length r → r ≡ []
length-nil [] n e = refl
length-nil (c ∷ r) n e = absurd (omega (arith, e))

module _ (str : Stringpy) (laws : TrimLaws str) where
  -- Trimming keeps the end of a text that does not end in a space.
  trim-end :
      (before full : Text) (sign : ℕ)
      → laws.is_space sign ≡ false
      → IsSolid laws.is_space (sign ∷ full)
      → (b : Text) × (str.trim (before ++ (sign ∷ full)) ≡ b ++ (sign ∷ full))
  trim-end before full sign ns solid =
      let text = before ++ (sign ∷ full) in
      let (p, t, hp, ht, e) = laws.takes_spaces text in
      let (b, e1) =
        strip_front laws.is_space p (str.trim text ++ t) before full sign hp ns (sym e) in
      let kept = b ++ (sign ∷ full) in
      let (r, e2) =
        strip_back laws.is_space (str.trim text) t kept [] ht
          (IsSolid-append laws.is_space b full sign solid) (e1 ∙ sym (append-nil kept)) in
      let q = length-nil r (length kept) (
        omega (
          arith,
          ap length e1,
          ap length e2,
          length-append (str.trim text) t,
          length-append kept r,
        )) in
      (b, e2 ∙ ap (λ q. kept ++ q) q ∙ append-nil kept)

  no_sign_space : (minus : Bool) → laws.is_space (sign_of minus) ≡ false
  no_sign_space true = laws.no_minus
  no_sign_space false = laws.no_plus

  -- What `push_back` does with a valid argument and an option that needs no trimming.
  push_back-trimmed :
      (arguments arg option : Text) (o : ℕ)
      → str.trim arg ≡ arg
      → str.trim (o ∷ option) ≡ o ∷ option
      → is_valid_argument arg ≡ true
      → push_back str arguments arg (o ∷ option)
        ≡ str.trim ((remove arguments arg ++ (space ∷ [])) ++ (arg ++ (space ∷ o ∷ option)))
  unfolding push_back
  push_back-trimmed arguments arg option o ta to v =
      rw (ta, to, v)
        (ap str.trim
          (sym (append_assoc (remove arguments arg) (space ∷ []) (arg ++ (space ∷ o ∷ option)))))

  is_valid_argument-signed :
      (minus : Bool) (c : ℕ) (name : Text) → is_valid_argument (sign_of minus ∷ c ∷ name) ≡ true
  is_valid_argument-signed true c name = ground arith
  is_valid_argument-signed false c name = ground arith

  -- Whatever the arguments are: an argument of a minus or a plus and a name, with an option, where
  -- neither name nor option is empty, neither the argument nor the option is changed by trimming, none
  -- of the two has a further sign, and the option has no space and does not end in another one, is
  -- found after `push_back`, and that option is what is read of it.
  pub get_argument_option-push_back :
      (arguments name option : Text) (minus : Bool) (c o : ℕ)
      → str.trim (sign_of minus ∷ c ∷ name) ≡ sign_of minus ∷ c ∷ name
      → str.trim (o ∷ option) ≡ o ∷ option
      → IsSolid laws.is_space (o ∷ option)
      → HasNo b'-' ((c ∷ name) ++ (space ∷ o ∷ option))
      → HasNo b'+' ((c ∷ name) ++ (space ∷ o ∷ option))
      → HasNo space (o ∷ option)
      → let arg = sign_of minus ∷ c ∷ name in
        let text = push_back str arguments arg (o ∷ option) in
        get_argument_option text arg (find_argument_pos text arg) ≡ some (o ∷ option)
  get_argument_option-push_back arguments name option minus c o ta to solid m p h =
      let arg = sign_of minus ∷ c ∷ name in
      let full = (c ∷ name) ++ (space ∷ o ∷ option) in
      let ends =
        subst (IsSolid laws.is_space) (append_assoc arg (space ∷ []) (o ∷ option))
          (IsSolid-append laws.is_space (arg ++ (space ∷ [])) option o solid) in
      let (b, kept) =
        trim-end (remove arguments arg ++ (space ∷ [])) full (sign_of minus) (no_sign_space minus)
          ends in
      let same =
        push_back-trimmed arguments arg option o ta to (is_valid_argument-signed minus c name)
        ∙ kept in
      ap (λ text. get_argument_option text arg (find_argument_pos text arg)) same
      ∙ ap (get_argument_option (b ++ (sign_of minus ∷ full)) arg)
          (find_argument_pos-end minus b (c ∷ name) (space ∷ o ∷ option) m p)
      ∙ get_argument_option-end b arg (o ∷ option)
      ∙ option_in-word o option h (HasNo-behind b'-' space (c ∷ name) (o ∷ option) m)
          (HasNo-behind b'+' space (c ∷ name) (o ∷ option) p)
