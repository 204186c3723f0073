-- ===== src/File/Tests.antt =====
-- Calls of the file functions, and the theorems at concrete files.
use rehlds_m.Base.{
  ℕ, ◌≤◌, ◌≡◌, refl, ◌↔◌, true, false, Option, none, some, [], ◌∷◌, length, take, Text, arith,
}
use rehlds_m.File.{
  Disk, Stream, FileReadErrorCode, bytes_at, max_file_size, file_exists, file_read, file_write,
  try_file_read,
}
use rehlds_m.File.Laws.{file_read-success, file_write-file_read}

abbrev blank : Disk
blank path = none

abbrev note : Text
note = b'n' ∷ []

abbrev working : ℕ → Stream
working size = record {
  opens = true;
  translates = false;
  told = some size;
  delivered = 1000;
  bad = false;
  closes = true;
}

-- The disk fills up after one byte.
abbrev filling : Stream
filling = record {
  opens = true;
  translates = false;
  told = none;
  delivered = 1;
  bad = true;
  closes = true;
}

abbrev stored : Disk
stored path = bytes_of path
  where
    bytes_of : Text → Option Text
    bytes_of [] = none
    bytes_of (c ∷ s) = some (7 ∷ 8 ∷ 9 ∷ [])

missing_file : (try_file_read (working 0) blank note []).0 ≡ false
unfolding try_file_read
missing_file = refl

partial_write : (file_write filling blank note (5 ∷ 6 ∷ []) false).1 note ≡ some (5 ∷ [])
unfolding file_write
partial_write = refl

file_read-success_example :
    ((file_read (working 3) stored note []).0 ≡ FileReadErrorCode.success) ↔ (
      (size : ℕ) × ((working 3).told ≡ some size)
      × (file_exists stored note ≡ true)
      × ((working 3).opens ≡ true)
      × (size ≤ max_file_size)
      × (size ≤ length (take (working 3).delivered (bytes_at (stored note))))
      × ((working 3).bad ≡ false)
      × ((working 3).closes ≡ true)
      × ((file_read (working 3) stored note []).1
          ≡ take size (take (working 3).delivered (bytes_at (stored note)))))
file_read-success_example = file_read-success (working 3) stored note []

-- On Windows, behind "789".
abbrev windows_stream : Stream
windows_stream = record (working 0) { translates = true }

file_write-file_read_example :
    file_read (working 6) (file_write windows_stream stored note (1 ∷ 10 ∷ []) true).1 note (4 ∷ [])
    ≡ (FileReadErrorCode.success, 7 ∷ 8 ∷ 9 ∷ 1 ∷ 13 ∷ 10 ∷ [])
unfolding file_write max_file_size
file_write-file_read_example =
    file_write-file_read windows_stream (working 6) stored note (1 ∷ 10 ∷ []) (4 ∷ []) true
      (λ e. cc) refl (omega arith)
      (record { opens = refl; told = refl; delivers = omega arith; good = refl; closes = refl })
