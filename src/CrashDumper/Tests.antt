-- ===== src/CrashDumper/Tests.antt =====
-- A dumper whose large dump fails.
use rehlds_m.Base.{ℕ, ◌≡◌, refl, ◌↔◌, Bool, true, false, none, some, [], ◌∷◌, Text}
use rehlds_m.CrashDumper.{
  CrashDumper, DumpLibrary, DumpSize, maximal, minimal, DumpSystem, create, destroy,
  create_dump_filename, filter_exception, execute_handler, continue_search, nothing_dumped,
  unhandled_exception_filter,
}
use rehlds_m.CrashDumper.Filter.{CanDump, filter_exception-create}

abbrev no_dumper : CrashDumper
no_dumper = record {
  dbghelp = none;
  mini_dump_write_dump = none;
  previous_exception_filter = none;
  current_filter = some 9;
}

abbrev dbghelp_library : DumpLibrary
dbghelp_library = record { module_handle = some 4; write_dump_address = λ handle. some 8 }

abbrev dumper : CrashDumper
dumper = record {
  dbghelp = some 4;
  mini_dump_write_dump = some 8;
  previous_exception_filter = some 9;
  current_filter = some unhandled_exception_filter;
}

abbrev only_small : ℕ → DumpSize → Bool
only_small file maximal = false
only_small file minimal = true

abbrev small_disk : DumpSystem
small_disk = record { create_file = λ filename. some 3; writes = only_small }

abbrev a_dump : Text
a_dump = b'd' ∷ []

filter_exception-create_example :
    (dumper.current_filter ≡ some unhandled_exception_filter)
    × (((filter_exception small_disk a_dump dumper).0 ≡ execute_handler)
        ↔ CanDump small_disk (some 3))
    × ((destroy dumper).current_filter ≡ some 9)
    × (filter_exception small_disk a_dump (destroy dumper) ≡ (continue_search, nothing_dumped))
unfolding create
filter_exception-create_example =
    filter_exception-create dbghelp_library no_dumper dumper small_disk a_dump refl

-- 5 January 2024, 07:08:09
filename_test :
    create_dump_filename
      (λ name. name)
      (b'h' ∷ [])
      (record { year = 2024; month = 1; day = 5; hour = 7; minute = 8; second = 9 })
    ≡ b'h' ∷ b'_' ∷ b'c' ∷ b'r' ∷ b'a' ∷ b's' ∷ b'h' ∷ b'_' ∷ b'2' ∷ b'0' ∷ b'2' ∷ b'4' ∷ b'0'
      ∷ b'1' ∷ b'0' ∷ b'5' ∷ b'_' ∷ b'0' ∷ b'7' ∷ b'0' ∷ b'8' ∷ b'0' ∷ b'9' ∷ b'.' ∷ b'm' ∷ b'd'
      ∷ b'm' ∷ b'p' ∷ []
unfolding create_dump_filename
filename_test = refl
