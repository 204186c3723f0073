-- ===== src/CrashDumper/Filter.antt =====
-- What becomes of an exception that nothing handles.
use rehlds_m.Base.{
  sym, subst, ℕ, ◌≡◌, refl, ap, inl, inr, Bool, true, false, Bool-cases, Option-cases,
  if◌then◌else◌, Option, none, some, Text, arith, ◌↔◌, ◌⊎◌,
}
use rehlds_m.CrashDumper.{
  CrashDumper, DumpLibrary, unhandled_exception_filter, create, destroy, maximal, minimal,
  DumpSystem, nothing_dumped, is_some, write_dump, with_file, continue_search, execute_handler,
  filter_exception,
}

-- A dump of one size can be written to a file.
abbrev pub TakesDump : DumpSystem → ℕ → Type 0
TakesDump system file = (system.writes file maximal ≡ true) ⊎ (system.writes file minimal ≡ true)

abbrev pub CanDump : DumpSystem → Option ℕ → Type 0
CanDump system created = (file : ℕ) × (created ≡ some file) × TakesDump system file

write_dump_iff :
    (system : DumpSystem) (file : ℕ) → ((write_dump system file).0 ≡ true) ↔ TakesDump system file
unfolding write_dump
write_dump_iff system file = elim (Bool-cases (system.writes file maximal)) [
  | inl e ↦ rw e (ground arith)
  | inr e ↦ rw e (ground arith)
]

result-execute :
    (b : Bool) → (if b then execute_handler else continue_search) ≡ execute_handler → b ≡ true
result-execute true e = refl
result-execute false e = cc

with_file_iff :
    (system : DumpSystem) (created : Option ℕ)
    → ((with_file system created).0 ≡ execute_handler) ↔ CanDump system created
with_file_iff system none = (λ e. absurd (no_result e), λ h. absurd (no_file h))
  where
    no_result : continue_search ≡ execute_handler → ⊥
    no_result e = cc

    no_file : CanDump system none → ⊥
    no_file (file, e, t) = cc
with_file_iff system (some file) = (
  λ e. (file, refl, (write_dump_iff system file).0 (result-execute (write_dump system file).0 e)),
  λ h.
      ap (λ b. if b then execute_handler else continue_search)
        ((write_dump_iff system file).1 (same h)),
)
  where
    same : CanDump system (some file) → TakesDump system file
    same (other, e, t) = let q : other ≡ file = cc in subst (TakesDump system) q t

abbrev loaded_with : CrashDumper → Option ℕ → Option ℕ → CrashDumper
loaded_with d handle address = record {
  dbghelp = handle;
  mini_dump_write_dump = address;
  previous_exception_filter = d.current_filter;
  current_filter = some unhandled_exception_filter;
}

created_with :
    (module_handle : Option ℕ) (write_dump_address : ℕ → Option ℕ) (d c : CrashDumper)
    → create (record { module_handle = module_handle; write_dump_address = write_dump_address }) d
      ≡ some c
    → (handle address : ℕ) × (c ≡ loaded_with d (some handle) (some address))
unfolding create
created_with none write_dump_address d c e = cc
created_with (some handle) write_dump_address d c e =
    let made : (if is_some (write_dump_address handle)
          then some (loaded_with d (some handle) (write_dump_address handle))
          else none)
        ≡ some c =
      e in
    elim (Option-cases (write_dump_address handle)) [
      | inl q ↦ let never = rw q at made in cc
      | inr (address, q) ↦ let same = rw q at made in (handle, address, cc)
    ]

-- While a crash dumper that could be made lives, its filter is the one of the program, and an
-- exception counts as handled exactly if a file of the name can be created and a dump of one size
-- written to it; after its destruction the filter is the one from before, and the own filter, should
-- it still be called, handles nothing.
pub filter_exception-create :
    (library : DumpLibrary) (d c : CrashDumper) (system : DumpSystem) (filename : Text)
    → create library d ≡ some c
    → (c.current_filter ≡ some unhandled_exception_filter)
      × (((filter_exception system filename c).0 ≡ execute_handler)
          ↔ CanDump system (system.create_file filename))
      × ((destroy c).current_filter ≡ d.current_filter)
      × (filter_exception system filename (destroy c) ≡ (continue_search, nothing_dumped))
unfolding filter_exception destroy
filter_exception-create library d c system filename e =
    let (handle, address, made) =
      created_with library.module_handle library.write_dump_address d c e in
    (
      ap (λ x. x.current_filter) made,
      subst
          (λ x.
            ((filter_exception system filename x).0 ≡ execute_handler)
            ↔ CanDump system (system.create_file filename))
          (sym made) (with_file_iff system (system.create_file filename)),
      ap (λ x. x.previous_exception_filter) made,
      refl,
    )
