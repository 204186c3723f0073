-- ===== src/CrashDumper.antt =====
-- libs/util/src/util/windows/system/crash_dumper.cpp and
-- libs/util/include/util/windows/system/crash_dumper.hpp: `Util::CrashDumper`, which writes a dump of
-- the program at an exception that nothing handles. Handles, addresses and filters are numbers; what
-- Windows answers is a parameter, and what a dump holds is left out but for its size.
pub mod Filter
mod Tests
use rehlds_m.Base.{
  ℕ, Bool, true, false, ◌||◌, if◌then◌else◌, ltb, ◌+◌, ◌/◌, ◌%◌, Option, none, some, List, [], ◌∷◌,
  ◌++◌, Text,
}
use rehlds_m.Convert.Decimal.{to_string}

-- The static variables of the file, and the filter that Windows has.
pub record CrashDumper : Type 0 where
  pub dbghelp : Option ℕ
  pub mini_dump_write_dump : Option ℕ
  pub previous_exception_filter : Option ℕ
  pub current_filter : Option ℕ

-- The number of `unhandled_exception_filter`.
abbrev pub unhandled_exception_filter : ℕ
unhandled_exception_filter = 1

-- What the loader gives for dbghelp.dll, and for MiniDumpWriteDump in it.
pub record DumpLibrary : Type 0 where
  pub module_handle : Option ℕ
  pub write_dump_address : ℕ → Option ℕ

abbrev pub dump_address : DumpLibrary → Option ℕ → Option ℕ
dump_address library none = none
dump_address library (some handle) = library.write_dump_address handle

abbrev pub is_some : Option ℕ → Bool
is_some none = false
is_some (some a) = true

-- The constructor; `none` is the end of the program.
unfoldable pub create : DumpLibrary → CrashDumper → Option CrashDumper
create library d =
    let address = dump_address library library.module_handle in
    if is_some address
    then some (record {
      dbghelp = library.module_handle;
      mini_dump_write_dump = address;
      previous_exception_filter = d.current_filter;
      current_filter = some unhandled_exception_filter;
    })
    else none

-- The destructor, which does not reset the address of the function.
unfoldable pub destroy : CrashDumper → CrashDumper
destroy d = record d { current_filter = d.previous_exception_filter; dbghelp = none }

-- Local time, each part as Windows gives it.
pub record SystemTime : Type 0 where
  pub year : ℕ
  pub month : ℕ
  pub day : ℕ
  pub hour : ℕ
  pub minute : ℕ
  pub second : ℕ

-- The format {:02d} of a number.
abbrev pub two_digits : ℕ → Text
two_digits n = if ltb n 10 then b'0' ∷ to_string n else to_string n

abbrev pub unknown_name : Text
unknown_name = (b'u' ∷ b'n' ∷ b'k' ∷ b'n' ∷ b'o' ∷ b'w' ∷ b'n' ∷ [])

abbrev pub stem_or_unknown : (Text → Text) → Text → Text
stem_or_unknown stem [] = unknown_name
stem_or_unknown stem (c ∷ name) = stem (c ∷ name)

-- The name of the program without its directory and extension is `stem` of its path.
unfoldable pub create_dump_filename : (Text → Text) → Text → SystemTime → Text
create_dump_filename stem exe_name time =
    stem_or_unknown stem exe_name
    ++ ((b'_' ∷ b'c' ∷ b'r' ∷ b'a' ∷ b's' ∷ b'h' ∷ b'_' ∷ [])
        ++ (to_string time.year
            ++ (two_digits time.month
                ++ (two_digits time.day
                    ++ (b'_'
                        ∷ (two_digits time.hour
                            ++ (two_digits time.minute
                                ++ (two_digits time.second
                                    ++ (b'.' ∷ b'm' ∷ b'd' ∷ b'm' ∷ b'p' ∷ [])))))))))

pub data DumpSize : Type 0 where
  maximal minimal : DumpSize

-- What Windows does at an exception: the file that it creates for a name, and whether it writes a
-- dump of a size to it.
pub record DumpSystem : Type 0 where
  pub create_file : Text → Option ℕ
  pub writes : ℕ → DumpSize → Bool

-- The dumps that were tried, and the files that were closed.
pub record Dumped : Type 0 where
  pub tried : List DumpSize
  pub closed : List ℕ

abbrev pub nothing_dumped : Dumped
nothing_dumped = record { tried = []; closed = [] }

unfoldable pub write_dump : DumpSystem → ℕ → Bool × List DumpSize
write_dump system file =
    if system.writes file maximal
    then (true, maximal ∷ [])
    else (system.writes file minimal, maximal ∷ minimal ∷ [])

pub data FilterResult : Type 0 where
  continue_search execute_handler : FilterResult

abbrev pub with_file : DumpSystem → Option ℕ → FilterResult × Dumped
with_file system none = (continue_search, nothing_dumped)
with_file system (some file) =
    let (success, tried) = write_dump system file in
    (
      if success then execute_handler else continue_search,
      record { tried = tried; closed = file ∷ [] },
    )

-- `unhandled_exception_filter`
unfoldable pub filter_exception : DumpSystem → Text → CrashDumper → FilterResult × Dumped
unfolding write_dump
filter_exception system filename d =
    if is_some d.dbghelp
    then if is_some d.mini_dump_write_dump
      then with_file system (system.create_file filename)
      else (continue_search, nothing_dumped)
    else (continue_search, nothing_dumped)
