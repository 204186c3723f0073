-- ===== src/CmdLine/Include.antt =====
-- The files that the arguments name.
use rehlds_m.Base.{
  ℕ, zero, suc, ◌≡◌, refl, ap, Bool, true, false, if◌then◌else◌, Option, none, some, List, [], ◌∷◌,
  ◌++◌, Text,
}
use rehlds_m.Stringpy.{Stringpy}
use rehlds_m.File.{Disk, Stream, FileReadErrorCode, file_read}
use rehlds_m.CmdLine.{is_skipped, is_include, append_arguments, trimmed, build_arguments_string}

module _ (str : Stringpy) (io : Stream) (disk : Disk) where
  -- No file is named.
  abbrev pub AreDirect : List Text → Type 0
  AreDirect [] = Unit {0}
  AreDirect (arg ∷ args) = (is_include str io disk arg ≡ false) × AreDirect args

  -- The arguments that are kept, each with a space behind it.
  abbrev pub spaced : List Text → Text
  spaced [] = []
  spaced (arg ∷ args) =
      if is_skipped str io disk arg then spaced args else arg ++ (b' ' ∷ spaced args)

  append_arguments-direct :
      (build : List Text → Option Text) (args : List Text)
      → AreDirect args
      → append_arguments str io disk build args ≡ some (spaced args)
  unfolding append_arguments
  append_arguments-direct build [] h = refl
  append_arguments-direct build (arg ∷ args) h =
      let rest = append_arguments-direct build args h.1 in
      rw (h.0, rest, append_arguments) (joined (is_skipped str io disk arg))
    where
      joined :
          (b : Bool)
          → (if b then some (spaced args) else some (arg ++ (b' ' ∷ spaced args)))
            ≡ some (if b then spaced args else arg ++ (b' ' ∷ spaced args))
      joined true = refl
      joined false = refl

  -- Arguments of which none names a file are joined with spaces, without those that are empty or a
  -- lone prefix, and trimmed: whatever the disk holds, and without a recursive call.
  pub build_arguments_string-direct :
      (depth : ℕ) (args : List Text)
      → AreDirect args
      → build_arguments_string str io disk (suc depth) args ≡ some (str.trim (spaced args))
  unfolding build_arguments_string
  build_arguments_string-direct depth args h =
      ap (trimmed str io disk)
        (append_arguments-direct (build_arguments_string str io disk depth) args h)

  -- A file that can be read, and whose one word names the file itself, is never done with: no
  -- depth of the recursion is enough for its name.
  pub build_arguments_string-cycle :
      (path content : Text) (c : ℕ) (depth : ℕ)
      → file_read io disk (c ∷ path) [] ≡ (FileReadErrorCode.success, content)
      → str.split content ≡ (b'@' ∷ c ∷ path) ∷ []
      → build_arguments_string str io disk depth ((b'@' ∷ c ∷ path) ∷ []) ≡ none
  unfolding build_arguments_string append_arguments
  build_arguments_string-cycle path content c zero h k = refl
  build_arguments_string-cycle path content c (suc depth) h k =
      rw (h, k, build_arguments_string-cycle path content c depth h k) refl
