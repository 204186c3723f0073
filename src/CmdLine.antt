-- ===== src/CmdLine.antt =====
-- libs/core/include/core/cmdline_args.hpp and libs/core/src/core/cmdline_args.cpp:
-- `Core::CmdLineArgs`, the arguments as one text, in which they are searched and replaced.
-- `front` of an empty text, which the standard leaves undefined, finds no prefix here.
pub mod Find
pub mod Remove
pub mod Include
pub mod Index
pub mod Push
mod Tests
use rehlds_m.Base.{
  ℕ, zero, suc, ◌+◌, ◌-◌, Bool, true, false, ◌||◌, ◌&&◌, not, if◌then◌else◌, ◌==◌, ltb, leb, Option,
  none, some, List, [], ◌∷◌, ◌++◌, length, take, drop, Text, starts_with,
}
use rehlds_m.Stringpy.{Stringpy}
use rehlds_m.File.{Disk, Stream, FileReadErrorCode, file_read}

abbrev pub space : ℕ
space = b' '

abbrev pub is_prefix_char : ℕ → Bool
is_prefix_char ch = b'-' == ch || (b'+' == ch || b'@' == ch)

abbrev pub starts_with_prefix : Text → Bool
starts_with_prefix [] = false
starts_with_prefix (ch ∷ s) = is_prefix_char ch

abbrev pub is_valid_argument : Text → Bool
is_valid_argument arg = ltb 1 (length arg) && starts_with_prefix arg

abbrev pub remove_argument_prefix : Text → Text
remove_argument_prefix [] = []
remove_argument_prefix (ch ∷ s) = if is_prefix_char ch then s else ch ∷ s

-- The place of the last occurrence.
unfoldable pub rfind : Text → Text → Option ℕ
rfind sub [] = if starts_with sub [] then some 0 else none
rfind sub (ch ∷ s) = elim (rfind sub s) [
  | some pos ↦ some (suc pos)
  | none ↦ if starts_with sub (ch ∷ s) then some 0 else none
]

abbrev pub later : Option ℕ → Option ℕ → Option ℕ
later none pos₂ = pos₂
later (some pos₁) none = some pos₁
later (some pos₁) (some pos₂) = some (if ltb pos₁ pos₂ then pos₂ else pos₁)

unfoldable pub find_argument_pos : Text → Text → Option ℕ
unfolding rfind
find_argument_pos arguments arg =
    let name = remove_argument_prefix arg in
    later (rfind (b'+' ∷ name) arguments) (rfind (b'-' ∷ name) arguments)

abbrev pub is_some : Option ℕ → Bool
is_some none = false
is_some (some pos) = true

unfoldable pub contains : Text → Text → Bool
unfolding find_argument_pos
contains arguments arg = is_some (find_argument_pos arguments arg)

abbrev pub skip_spaces : Text → Text
skip_spaces [] = []
skip_spaces (ch ∷ s) = if ch == space then skip_spaces s else ch ∷ s

abbrev pub up_to_space : Text → Text
up_to_space [] = []
up_to_space (ch ∷ s) = if ch == space then [] else ch ∷ up_to_space s

abbrev option_in : Text → Option Text
option_in [] = none
option_in (ch ∷ s) = if ch == b'+' || ch == b'-' then none else some (up_to_space (ch ∷ s))

-- `get_argument_option(arg, pos)`; what follows the argument stands for the index into the text.
unfoldable pub get_argument_option : Text → Text → Option ℕ → Option Text
get_argument_option arguments arg none = none
get_argument_option arguments arg (some pos) =
    option_in (skip_spaces (drop (pos + length arg + 1) arguments))

abbrev pub option_length : Option Text → ℕ
option_length none = 0
option_length (some option) = length option + 1

-- The body of the loop: what is left of the text.
unfoldable pub erase_argument : Text → Text → ℕ → Text
unfolding get_argument_option
erase_argument arguments arg pos =
    let count = 1 + length arg + 1 + option_length (get_argument_option arguments arg (some pos)) in
    take (pos - 1) arguments ++ drop (pos - 1 + count) arguments

-- The loop of `remove`, on fuel.
unfoldable pub remove_found : ℕ → Text → Text → Text
unfolding find_argument_pos erase_argument
remove_found zero arguments arg = arguments
remove_found (suc fuel) arguments arg = elim (find_argument_pos arguments arg) [
  | none ↦ arguments
  | some pos ↦ remove_found fuel (erase_argument arguments arg pos) arg
]

unfoldable pub remove : Text → Text → Text
unfolding remove_found
remove arguments arg = remove_found (length arguments) arguments (remove_argument_prefix arg)

module _ (str : Stringpy) where
  abbrev pub with_option : Text → Text → Text
  with_option arg [] = arg
  with_option arg (ch ∷ s) = arg ++ (space ∷ ch ∷ s)

  unfoldable pub push_front : Text → Text → Text → Text
  unfolding remove
  push_front arguments arg option =
      let trimmed = str.trim arg in
      if not (is_valid_argument trimmed)
      then arguments
      else str.trim (with_option trimmed (str.trim option) ++ (space ∷ remove arguments trimmed))

  unfoldable pub push_back : Text → Text → Text → Text
  unfolding remove
  push_back arguments arg option =
      let trimmed = str.trim arg in
      if not (is_valid_argument trimmed)
      then arguments
      else str.trim (remove arguments trimmed ++ (space ∷ with_option trimmed (str.trim option)))

-- The text of the arguments, with the words of the files that they name.
module _ (str : Stringpy) (io : Stream) (disk : Disk) where
  abbrev pub is_skipped : Text → Bool
  is_skipped [] = true
  is_skipped (ch ∷ []) = is_prefix_char ch
  is_skipped (ch ∷ c ∷ s) = false

  abbrev pub is_include : Text → Bool
  is_include [] = false
  is_include (ch ∷ s) = b'@' == ch

  abbrev pub and_space : Option Text → Option Text → Option Text
  and_space none rest = none
  and_space (some s) none = none
  and_space (some s) (some rest) = some (s ++ (space ∷ rest))

  -- The text of an included file; a file that is not read adds nothing.
  abbrev pub included :
      (List Text → Option Text) → FileReadErrorCode × Text → Option Text → Option Text
  included build (FileReadErrorCode.success, content) rest =
      and_space (build (str.split content)) rest
  included build (_, content) rest = rest

  -- The loop over the arguments; `build` is the recursive call.
  unfoldable pub append_arguments : (List Text → Option Text) → List Text → Option Text
  append_arguments build [] = some []
  append_arguments build (arg ∷ args) =
      let rest = append_arguments build args in
      if is_skipped arg
      then rest
      else if is_include arg
      then included build (file_read io disk (drop 1 arg) []) rest
      else and_space (some arg) rest

  abbrev pub trimmed : Option Text → Option Text
  trimmed none = none
  trimmed (some s) = some (str.trim s)

  -- `none` is a recursion that is deeper than the fuel.
  unfoldable pub build_arguments_string : ℕ → List Text → Option Text
  unfolding append_arguments
  build_arguments_string zero args = none
  build_arguments_string (suc depth) args =
      trimmed (append_arguments (build_arguments_string depth) args)

  -- `from_command_line`: the arguments behind the name of the executable.
  unfoldable pub from_command_line : ℕ → List Text → Option Text
  unfolding build_arguments_string
  from_command_line depth argv = build_arguments_string depth (drop 1 argv)
