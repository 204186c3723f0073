-- ===== src/Console/Windows.antt =====
-- libs/view/src/view/windows/console_input.cpp: `ConsoleInput::read_input` on Windows, which reads
-- events instead of bytes. The failure of reading and the waiting are left out.
use rehlds_m.Base.{
  ℕ, ◌≤◌, ◌≡◌, refl, sym, ap, ◌∙◌, Bool, true, false, not, ◌||◌, if◌then◌else◌, ◌==◌, Option, none,
  some, List, [], ◌∷◌, length, arith,
}
use rehlds_m.Stringpy.{newline}
use rehlds_m.Console.{backspace, carriage_return}
use rehlds_m.Console.Keys.{
  Key, up_arrow, down_arrow, right_arrow, left_arrow, end_key, home_key, delete_key, newline_key,
  backspace_key, tab_key, char_key, delete_byte, tab, and_then, read_keys,
}
use rehlds_m.Console.KeyCodes.{codes, read_keys-codes, IsTyped, AreTyped}

-- A record of the console: whether it is a key that goes down, its code and its character.
pub record InputRecord : Type 0 where
  pub is_key_event : Bool
  pub key_code : ℕ
  pub character : ℕ

abbrev pub vk_back : ℕ
vk_back = 8

abbrev pub vk_tab : ℕ
vk_tab = 9

abbrev pub vk_return : ℕ
vk_return = 13

abbrev pub vk_end : ℕ
vk_end = 35

abbrev pub vk_home : ℕ
vk_home = 36

abbrev pub vk_left : ℕ
vk_left = 37

abbrev pub vk_up : ℕ
vk_up = 38

abbrev pub vk_right : ℕ
vk_right = 39

abbrev pub vk_down : ℕ
vk_down = 40

abbrev pub vk_delete : ℕ
vk_delete = 46

-- The switch over the character.
abbrev pub key_of_character : ℕ → Option Key
key_of_character c =
    if c == 0
    then none
    else if c == tab
    then some tab_key
    else if c == backspace || c == delete_byte
    then some backspace_key
    else some (char_key c)

-- The switch over the key code, where the character is looked at last.
abbrev pub key_of_code : ℕ → ℕ → Option Key
key_of_code k c =
    if k == vk_up
    then some up_arrow
    else if k == vk_down
    then some down_arrow
    else if k == vk_left
    then some left_arrow
    else if k == vk_right
    then some right_arrow
    else if k == vk_back
    then some backspace_key
    else if k == vk_delete
    then some delete_key
    else if k == vk_home
    then some home_key
    else if k == vk_end
    then some end_key
    else if k == vk_tab
    then some tab_key
    else key_of_character c

unfoldable pub read_record : InputRecord → Option Key
read_record r =
    if not r.is_key_event
    then none
    else if r.key_code == vk_return || (r.character == carriage_return || r.character == newline)
    then some newline_key
    else key_of_code r.key_code r.character

unfoldable pub read_records : List InputRecord → List Key
unfolding read_record
read_records [] = []
read_records (r ∷ rs) = and_then (read_record r) (read_records rs)

-- The record of a key; that of a character has some code that is no special one.
abbrev special_codes : ℕ → Bool
special_codes k =
    k == vk_return
    || (k == vk_up
        || (k == vk_down
            || (k == vk_left
                || (k == vk_right
                    || (k == vk_back
                        || (k == vk_delete || (k == vk_home || (k == vk_end || k == vk_tab))))))))

abbrev code_record : ℕ → InputRecord
code_record k = record { is_key_event = true; key_code = k; character = 0 }

module _ (letter_code : ℕ → ℕ) where
  abbrev pub record_of : Key → InputRecord
  record_of up_arrow = code_record vk_up
  record_of down_arrow = code_record vk_down
  record_of right_arrow = code_record vk_right
  record_of left_arrow = code_record vk_left
  record_of end_key = code_record vk_end
  record_of home_key = code_record vk_home
  record_of delete_key = code_record vk_delete
  record_of newline_key = code_record vk_return
  record_of backspace_key = code_record vk_back
  record_of tab_key = code_record vk_tab
  record_of (char_key ch) = record {
    is_key_event = true;
    key_code = letter_code ch;
    character = ch;
  }

  abbrev pub records : List Key → List InputRecord
  records [] = []
  records (key ∷ keys) = record_of key ∷ records keys

  -- On Windows a carriage return is a newline too.
  abbrev pub NoReturn : Key → Type 0
  NoReturn (char_key ch) = (ch == carriage_return) ≡ false
  NoReturn up_arrow = Unit {0}
  NoReturn down_arrow = Unit {0}
  NoReturn right_arrow = Unit {0}
  NoReturn left_arrow = Unit {0}
  NoReturn end_key = Unit {0}
  NoReturn home_key = Unit {0}
  NoReturn delete_key = Unit {0}
  NoReturn newline_key = Unit {0}
  NoReturn backspace_key = Unit {0}
  NoReturn tab_key = Unit {0}

  abbrev pub NoReturns : List Key → Type 0
  NoReturns [] = Unit {0}
  NoReturns (key ∷ keys) = NoReturn key × NoReturns keys

  abbrev pub AreLetters : Type 0
  AreLetters = (ch : ℕ) → special_codes (letter_code ch) ≡ false

  read_record-record_of :
      (key : Key) → AreLetters → IsTyped key → NoReturn key → read_record (record_of key) ≡ some key
  unfolding read_record
  read_record-record_of up_arrow l h k = refl
  read_record-record_of down_arrow l h k = refl
  read_record-record_of right_arrow l h k = refl
  read_record-record_of left_arrow l h k = refl
  read_record-record_of end_key l h k = refl
  read_record-record_of home_key l h k = refl
  read_record-record_of delete_key l h k = refl
  read_record-record_of newline_key l h k = refl
  read_record-record_of backspace_key l h k = refl
  read_record-record_of tab_key l h k = refl
  read_record-record_of (char_key ch) l h k = ground (arith, l ch)

  read_records-records :
      (keys : List Key)
      → AreLetters
      → AreTyped keys
      → NoReturns keys
      → read_records (records keys) ≡ keys
  unfolding read_records
  read_records-records [] l h k = refl
  read_records-records (key ∷ keys) l h k =
      ap (λ o. and_then o (read_records (records keys))) (read_record-record_of key l h.0 k.0)
      ∙ ap (λ q. key ∷ q) (read_records-records keys l h.1 k.1)

  -- The readers of the two platforms agree: the records that Windows has for any keys give the same
  -- calls as the bytes that a Linux terminal sends for them, where no typed character is one of
  -- those that a key sends, or a carriage return, and no typed character has the code of a special
  -- key.
  pub read_records-read_keys :
      (keys : List Key) (fuel : ℕ)
      → AreLetters
      → AreTyped keys
      → NoReturns keys
      → length (codes keys) ≤ fuel
      → read_records (records keys) ≡ read_keys fuel (codes keys)
  read_records-read_keys keys fuel l h k e =
      read_records-records keys l h k ∙ sym (read_keys-codes keys fuel h e)
