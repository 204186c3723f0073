-- ===== src/ServerLoop/Clock.antt =====
-- libs/model/src/model/server_loop.cpp: `is_time_to_update`, with its static time of the last update.
-- Times are nanoseconds of the clock, which is steady on Windows, where alone it is asked.
use rehlds_m.Base.{ℕ, ◌-◌, ◌/◌, Bool, true, false, if◌then◌else◌, leb, Option, none, some}

abbrev pub update_interval : ℕ
update_interval = 500

-- `std::chrono::duration_cast` to milliseconds.
abbrev pub milliseconds : ℕ → ℕ
milliseconds nanoseconds = nanoseconds / 1_000_000

-- The time of the last update; before the first call it is the time of that call.
abbrev pub last_or_now : Option ℕ → ℕ → ℕ
last_or_now none now = now
last_or_now (some last_update_time) now = last_update_time

-- The answer, and the static time after it. `initial_time` is what the clock told before the static time was set, and is read only then.
unfoldable pub is_time_to_update : Option ℕ → ℕ → ℕ → Bool × ℕ
is_time_to_update last initial_time current_time =
    let last_update_time = last_or_now last initial_time in
    if leb update_interval (milliseconds (current_time - last_update_time))
    then (true, current_time)
    else (false, last_update_time)
