-- ===== src/File.antt =====
-- libs/util/src/util/file.cpp and libs/util/include/util/file.hpp: reading, writing and removing
-- files with error codes. The disk maps a path to the file's bytes; what the operating system makes
-- of one call is an argument of it. Both writers open
-- the file as text, which on Windows puts a carriage return before every line feed; the reader takes
-- the bytes as they are.
pub mod Laws
mod Tests
use rehlds_m.Base.{
  ℕ, zero, suc, ◌-◌, ◌*◌, ◌≡◌, Bool, true, false, not, ◌&&◌, ◌||◌, ◌==◌, if◌then◌else◌, ltb, Option,
  none, some, List, [], ◌∷◌, ◌++◌, length, take, drop, replicate, Text, text_eq,
}
use rehlds_m.Stringpy.{newline, join_lines}

pub data FileReadErrorCode : Type 0 where
  success not_exist open_error size_invalid size_exceeded read_error close_error : FileReadErrorCode

pub data FileWriteErrorCode : Type 0 where
  success open_error write_error close_error : FileWriteErrorCode

-- A path without a file has none.
abbrev pub Disk : Type 0
Disk = Text → Option Text

abbrev pub put : Disk → Text → Option Text → Disk
put disk path file other = if text_eq other path then file else disk other

-- What the system does for one stream: whether it opens, whether it is one of Windows, which
-- translates text that is written, what `tellg` says, how many bytes get through, whether the stream
-- goes bad, whether it closes.
pub record Stream : Type 0 where
  pub opens : Bool
  pub translates : Bool
  pub told : Option ℕ
  pub delivered : ℕ
  pub bad : Bool
  pub closes : Bool

-- The bytes of a text that is written.
abbrev pub text_bytes : Bool → Text → Text
text_bytes false s = s
text_bytes true [] = []
text_bytes true (c ∷ s) =
    let rest = text_bytes true s in if c == newline then 13 ∷ newline ∷ rest else c ∷ rest

unfoldable pub max_file_size : ℕ
max_file_size = 100 * 1024 * 1024

abbrev pub is_some {ℓ} : {A : Type ℓ} → Option A → Bool
is_some none = false
is_some (some a) = true

abbrev pub bytes_at : Option Text → Text
bytes_at none = []
bytes_at (some s) = s

unfoldable pub file_exists : Disk → Text → Bool
file_exists disk [] = false
file_exists disk (c ∷ path) = is_some (disk (c ∷ path))

-- `std::string::resize`: cut, or fill up by null characters.
abbrev pub resize : Text → ℕ → Text
resize s n = take n s ++ replicate (n - length s) 0

-- `istream::read` over the front of a buffer of `n` bytes.
abbrev pub read_into : Text → Text → ℕ → Text
read_into buffer bytes n = take n bytes ++ drop (length (take n bytes)) buffer

-- After the size is known. The out-parameter `content` is returned beside the code.
read_sized : Stream → Text → Text → ℕ → FileReadErrorCode × Text
unfolding max_file_size
read_sized io bytes content size =
    if ltb max_file_size size
    then (FileReadErrorCode.size_exceeded, content)
    else let got = take io.delivered bytes in
      let content' = read_into (resize content size) got size in
      if ltb (length got) size || io.bad
      then (FileReadErrorCode.read_error, content')
      else if io.closes
      then (FileReadErrorCode.success, content')
      else (FileReadErrorCode.close_error, content')

unfoldable pub file_read : Stream → Disk → Text → Text → FileReadErrorCode × Text
unfolding file_exists read_sized
file_read io disk path content =
    if not (file_exists disk path)
    then (FileReadErrorCode.not_exist, content)
    else if not io.opens
    then (FileReadErrorCode.open_error, content)
    else elim io.told [
      | none ↦ (FileReadErrorCode.size_invalid, content)
      | some size ↦ read_sized io (bytes_at (disk path)) content size
    ]

-- Opening truncates, or keeps what is to be appended to; the bytes that got through follow.
write_opened : Stream → Disk → Text → Text → Bool → FileWriteErrorCode × Disk
write_opened io disk path bytes append =
    let stored = text_bytes io.translates bytes in
    let old = if append then bytes_at (disk path) else [] in
    let partial = put disk path (some (old ++ take io.delivered stored)) in
    if io.bad
    then (FileWriteErrorCode.write_error, partial)
    else if io.closes
    then (FileWriteErrorCode.success, put disk path (some (old ++ stored)))
    else (FileWriteErrorCode.close_error, partial)

unfoldable pub file_write : Stream → Disk → Text → Text → Bool → FileWriteErrorCode × Disk
unfolding write_opened
file_write io disk path content append =
    if not io.opens
    then (FileWriteErrorCode.open_error, disk)
    else write_opened io disk path content append

unfoldable pub file_write_lines :
    Stream → Disk → Text → List Text → Bool → FileWriteErrorCode × Disk
unfolding write_opened
file_write_lines io disk path lines append =
    if not io.opens
    then (FileWriteErrorCode.open_error, disk)
    else write_opened io disk path (join_lines lines) append

-- The logged failure, with the path that the message names.
pub data FileLog : Type 0 where
  read_failed : FileReadErrorCode → Text → FileLog
  write_failed : FileWriteErrorCode → Text → FileLog
  remove_failed : Text → FileLog

handle_write_error : FileWriteErrorCode → Text → Bool × List FileLog
handle_write_error FileWriteErrorCode.success path = (true, [])
handle_write_error FileWriteErrorCode.open_error path =
    (false, write_failed FileWriteErrorCode.open_error path ∷ [])
handle_write_error FileWriteErrorCode.write_error path =
    (false, write_failed FileWriteErrorCode.write_error path ∷ [])
handle_write_error FileWriteErrorCode.close_error path =
    (false, write_failed FileWriteErrorCode.close_error path ∷ [])

handle_read : FileReadErrorCode → Text → Bool × List FileLog
handle_read FileReadErrorCode.success path = (true, [])
handle_read code path = (false, read_failed code path ∷ [])

unfoldable pub try_file_read : Stream → Disk → Text → Text → Bool × List FileLog × Text
unfolding file_read handle_read
try_file_read io disk path content =
    let (code, content') = file_read io disk path content in
    let (done, log) = handle_read code path in (done, log, content')

unfoldable pub try_file_write : Stream → Disk → Text → Text → Bool → Bool × List FileLog × Disk
unfolding file_write handle_write_error
try_file_write io disk path content append =
    let (code, disk') = file_write io disk path content append in
    let (done, log) = handle_write_error code path in (done, log, disk')

unfoldable pub try_file_write_lines :
    Stream → Disk → Text → List Text → Bool → Bool × List FileLog × Disk
unfolding file_write_lines handle_write_error
try_file_write_lines io disk path lines append =
    let (code, disk') = file_write_lines io disk path lines append in
    let (done, log) = handle_write_error code path in (done, log, disk')

-- `std::filesystem::remove`: whether it reports an error is the system's; a missing file is none.
unfoldable pub file_remove : Bool → Disk → Text → Bool × Disk
file_remove allowed disk path =
    if not (is_some (disk path))
    then (true, disk)
    else if allowed
    then (true, put disk path none)
    else (false, disk)

unfoldable pub try_file_remove : Bool → Disk → Text → Bool × List FileLog × Disk
unfolding file_remove
try_file_remove allowed disk path =
    let (done, disk') = file_remove allowed disk path in
    (done, if done then [] else remove_failed path ∷ [], disk')
