-- ===== src/Console/Complete/Width.antt =====
-- libs/util/src/util/linux/console.cpp and libs/util/src/util/windows/console.cpp:
-- `Util::get_console_width`, with what the system answers as arguments.
mod Tests
use rehlds_m.Base.{ℕ, zero, suc, ◌-◌, Option, none, some, List, [], ◌∷◌, Text}
use rehlds_m.Base.Int.{ℤ, pos, negsuc, ◌+ℤ◌, ◌-ℤ◌}
use rehlds_m.Convert.{size_limit, convert_to_size}

abbrev pub or_zero : Option ℕ → ℕ
or_zero none = 0
or_zero (some n) = n

-- The columns that ioctl tells, and the value of COLUMNS.
unfoldable pub linux_console_width : Option ℕ → Option Text → ℕ
unfolding convert_to_size
linux_console_width (some ws_col) columns = ws_col
linux_console_width none none = 0
linux_console_width none (some []) = 0
linux_console_width none (some (c ∷ columns)) = or_zero (convert_to_size (c ∷ columns))

-- A negative number as an std::size_t.
abbrev pub to_size : ℤ → ℕ
to_size (pos n) = n
to_size (negsuc n) = size_limit - suc n

-- The left and right edges of the window.
unfoldable pub windows_console_width : Option (ℤ × ℤ) → ℕ
unfolding ◌+ℤ◌ ◌-ℤ◌
windows_console_width none = 0
windows_console_width (some (left, right)) = to_size ((right -ℤ left) +ℤ pos 1)
