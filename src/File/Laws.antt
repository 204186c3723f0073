-- ===== src/File/Laws.antt =====
-- What the file functions promise.
use rehlds_m.Base.{
  ℕ, zero, ◌-◌, ◌≤◌, ◌≡◌, refl, ap, ◌∙◌, ◌↔◌, ◌≢◌, inl, inr, Option-cases, none, if◌then◌else◌,
  Bool, true, false, some, List, [], ◌∷◌, ◌++◌, arith, append-nil, length, take, replicate,
  length-append, length-replicate, length-take, take-length, drop-length, Text, text_eq,
  text_eq_iff,
}
use rehlds_m.Stringpy.{newline, IsOneLine, AreLines, line_end, join_ended, join_lines}
use rehlds_m.File.{
  FileReadErrorCode, FileWriteErrorCode, Disk, Stream, resize, read_into, max_file_size,
  handle_read, handle_write_error, file_exists, file_read, file_write, file_write_lines, text_bytes,
  try_file_read, try_file_write_lines, is_some, bytes_at,
}

length-resize : (s : Text) (n : ℕ) → length (resize s n) ≡ n
length-resize s n = omega (
  arith,
  length-append (take n s) (replicate (n - length s) 0),
  length-take n s,
  length-replicate (n - length s) (zero),
)

-- A full read leaves nothing of what the buffer held.
read_into_full :
    (buffer bytes : Text) (n : ℕ)
    → length buffer ≡ n
    → n ≤ length bytes
    → read_into buffer bytes n ≡ take n bytes
read_into_full buffer bytes n h k =
    ap (λ r. take n bytes ++ r)
      (drop-length buffer (length (take n bytes)) (omega (arith, length-take n bytes)))
    ∙ append-nil (take n bytes)

file_read-success_told :
    (io : Stream) (disk : Disk) (path content : Text) (size : ℕ)
    → io.told ≡ some size
    → ((file_read io disk path content).0 ≡ FileReadErrorCode.success) ↔ (
        (file_exists disk path ≡ true)
        × (io.opens ≡ true)
        × (size ≤ max_file_size)
        × (size ≤ length (take io.delivered (bytes_at (disk path))))
        × (io.bad ≡ false)
        × (io.closes ≡ true))
unfolding file_read
file_read-success_told io disk path content size h = ground arith

-- Without a size no read succeeds.
file_read-untold :
    (io : Stream) (disk : Disk) (path content : Text)
    → io.told ≡ none
    → (file_read io disk path content).0 ≢ FileReadErrorCode.success
unfolding file_read
file_read-untold io disk path content h = ground arith

-- After a successful read the out-parameter holds the file's first `size` bytes, whatever it held
-- before.
pub file_read-content :
    (io : Stream) (disk : Disk) (path content : Text) (size : ℕ)
    → io.told ≡ some size
    → (file_read io disk path content).0 ≡ FileReadErrorCode.success
    → (file_read io disk path content).1 ≡ take size (take io.delivered (bytes_at (disk path)))
unfolding file_read
file_read-content io disk path content size h e = ground (
  arith,
  length-resize content size,
  read_into_full (resize content size) (take io.delivered (bytes_at (disk path))) size,
)

-- A read succeeds exactly when the file exists, opens, tells a size, also zero, of at most 100 MB,
-- delivers that many bytes without going bad, and closes; the out-parameter then holds so many
-- first bytes of the file, whatever it held before.
pub file_read-success :
    (io : Stream) (disk : Disk) (path content : Text)
    → ((file_read io disk path content).0 ≡ FileReadErrorCode.success) ↔ (
        (size : ℕ) × (io.told ≡ some size)
        × (file_exists disk path ≡ true)
        × (io.opens ≡ true)
        × (size ≤ max_file_size)
        × (size ≤ length (take io.delivered (bytes_at (disk path))))
        × (io.bad ≡ false)
        × (io.closes ≡ true)
        × ((file_read io disk path content).1
            ≡ take size (take io.delivered (bytes_at (disk path)))))
file_read-success io disk path content = (
  (λ e. elim (Option-cases io.told) [
    | inl q ↦ absurd (file_read-untold io disk path content q e)
    | inr (size, q) ↦
        let (exists, opens, small, got, good, closes) =
          (file_read-success_told io disk path content size q).0 e in
        (
          size,
          q,
          exists,
          opens,
          small,
          got,
          good,
          closes,
          file_read-content io disk path content size q e,
        )
  ]),
  (λ (size, q, exists, opens, small, got, good, closes, c).
      (file_read-success_told io disk path content size q).1
        (exists, opens, small, got, good, closes)),
)

-- A stream that does what it is asked, for a file of the given length.
pub record Works (io : Stream) (size : ℕ) : Type 0 where
  pub opens : io.opens ≡ true
  pub told : io.told ≡ some size
  pub delivers : size ≤ io.delivered
  pub good : io.bad ≡ false
  pub closes : io.closes ≡ true

pub file_read-Works :
    (io : Stream) (disk : Disk) (path content bytes : Text)
    → path ≢ []
    → disk path ≡ some bytes
    → length bytes ≤ max_file_size
    → Works io (length bytes)
    → file_read io disk path content ≡ (FileReadErrorCode.success, bytes)
unfolding file_read
file_read-Works io disk [] content bytes ne e small w = absurd (ne refl)
file_read-Works io disk (c ∷ path) content bytes ne e small w = ground (
  arith,
  take-length bytes io.delivered,
  take-length bytes (length bytes),
  length-resize content (length bytes),
  read_into_full (resize content (length bytes)) bytes (length bytes),
)

pub text_eq_refl : (s : Text) → text_eq s s ≡ true
text_eq_refl s = (text_eq_iff s s).1 refl

-- The disk after a successful write.
pub file_write_lines-success :
    (io : Stream) (disk : Disk) (path : Text) (lines : List Text)
    → (file_write_lines io disk path lines false).0 ≡ FileWriteErrorCode.success
    → (file_write_lines io disk path lines false).1 path
      ≡ some (text_bytes io.translates (join_lines lines))
unfolding file_write_lines
file_write_lines-success io disk path lines h = ground (arith, text_eq_refl path)

-- What a successful write stored is what a later read of that path gives, behind the old bytes if
-- the write appends, and whatever the out-parameter held before: the bytes of the content, on Windows
-- with a carriage return before each line feed.
pub file_write-file_read :
    (w r : Stream) (disk : Disk) (path content before : Text) (append : Bool)
    → path ≢ []
    → (file_write w disk path content append).0 ≡ FileWriteErrorCode.success
    → let all = (if append then bytes_at (disk path) else []) ++ text_bytes w.translates content in
      length all ≤ max_file_size
      → Works r (length all)
      → file_read r (file_write w disk path content append).1 path before
        ≡ (FileReadErrorCode.success, all)
unfolding file_write
file_write-file_read w r disk path content before append ne h small works =
    file_read-Works r (file_write w disk path content append).1 path before
      ((if append then bytes_at (disk path) else []) ++ text_bytes w.translates content) ne
      (ground (arith, text_eq_refl path)) small works

-- On every branch a write leaves the other files alone, and one that fails to open leaves all.
pub file_write_frame :
    (io : Stream) (disk : Disk) (path content : Text) (append : Bool)
    → ((other : Text)
        → other ≢ path
        → (file_write io disk path content append).1 other ≡ disk other)
      × ((file_write io disk path content append).0 ≡ FileWriteErrorCode.open_error
          → (file_write io disk path content append).1 ≡ disk)
unfolding file_write
file_write_frame io disk path content append =
    ((λ other ne. ground (arith, text_eq_iff other path)), ground arith)

-- Lines as text.
text_bytes-append :
    (l rest : Text)
    → IsOneLine l
    → text_bytes true (l ++ (newline ∷ rest)) ≡ l ++ (line_end true ++ text_bytes true rest)
text_bytes-append [] rest h = refl
text_bytes-append (c ∷ l) rest (h, hs) = rw h (ap (λ r. c ∷ r) (text_bytes-append l rest hs))

pub text_bytes-join_lines :
    (crlf : Bool) (ls : List Text)
    → AreLines ls
    → text_bytes crlf (join_lines ls) ≡ join_ended crlf ls
text_bytes-join_lines false [] h = refl
text_bytes-join_lines true [] h = refl
text_bytes-join_lines false (l ∷ ls) (h, hs) =
    ap (λ r. l ++ (newline ∷ r)) (text_bytes-join_lines false ls hs)
text_bytes-join_lines true (l ∷ ls) (h, hs) =
    text_bytes-append l (join_lines ls) h
    ∙ ap (λ r. l ++ (line_end true ++ r)) (text_bytes-join_lines true ls hs)

-- The logging variants report a failure exactly by what they log.
pub try_file_read-Works :
    (io : Stream) (disk : Disk) (path content bytes : Text)
    → file_read io disk path content ≡ (FileReadErrorCode.success, bytes)
    → try_file_read io disk path content ≡ (true, [], bytes)
unfolding try_file_read
try_file_read-Works io disk path content bytes e =
    ap (λ r. let (done, log) = handle_read r.0 path in (done, log, r.1)) e

pub try_file_write_lines-quiet :
    (io : Stream) (disk : Disk) (path : Text) (lines : List Text)
    → (try_file_write_lines io disk path lines false).1 ≡ []
    → (try_file_write_lines io disk path lines false).2 path
      ≡ some (text_bytes io.translates (join_lines lines))
unfolding try_file_write_lines
try_file_write_lines-quiet io disk path lines h =
    file_write_lines-success io disk path lines
      (quiet (file_write_lines io disk path lines false).0 h)
  where
    quiet :
        (code : FileWriteErrorCode)
        → (handle_write_error code path).1 ≡ []
        → code ≡ FileWriteErrorCode.success
    quiet FileWriteErrorCode.success e = refl
    quiet FileWriteErrorCode.open_error e = cc
    quiet FileWriteErrorCode.write_error e = cc
    quiet FileWriteErrorCode.close_error e = cc

pub file_exists-some :
    (disk : Disk) (path bytes : Text)
    → path ≢ []
    → disk path ≡ some bytes
    → file_exists disk path ≡ true
unfolding file_exists
file_exists-some disk [] bytes ne e = absurd (ne refl)
file_exists-some disk (c ∷ path) bytes ne e = ap is_some e
