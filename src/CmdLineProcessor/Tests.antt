-- ===== src/CmdLineProcessor/Tests.antt =====
-- Processing no options at all.
use rehlds_m.Base.{◌≡◌, ◌≢◌, true, false, some, none, [], ◌∷◌, Text}
use rehlds_m.Stringpy.Example.{ascii}
use rehlds_m.File.{Disk, Stream}
use rehlds_m.CmdLine.{contains}
use rehlds_m.CmdLineProcessor.{Setup, condebug_name, pidfile_of, process}
use rehlds_m.CmdLineProcessor.Effects.{IsOther, process_lem}

abbrev blank : Disk
blank path = none

abbrev broken : Stream
broken = record {
  opens = false;
  translates = false;
  told = none;
  delivered = 0;
  bad = false;
  closes = true;
}

abbrev debugging : Setup
debugging = record {
  args = b'-' ∷ condebug_name;
  disk = blank;
  log = [];
  ignores_sigint = false;
  dumps_crashes = false;
}

abbrev name : Text
name = b'q' ∷ []

process_lem_example :
    let s = process ascii false true broken broken name (b'7' ∷ []) debugging in
    (contains s.args condebug_name ≡ false)
    × ((other : Text) → IsOther name other → some other ≢ pidfile_of s.args → s.disk other ≡ none)
    × (IsOther name [] → s.disk [] ≡ none)
process_lem_example = process_lem ascii false true broken broken name (b'7' ∷ []) debugging
