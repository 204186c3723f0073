-- ===== src/ConsoleView/Display.antt =====
-- The status in the window of Windows.
use rehlds_m.Base.{ℕ, ◌≡◌, refl, ◌*◌, ◌==◌, ==_iff, Bool-cases, inl, inr, some, Text}
use rehlds_m.ServerLoop.{ServerStatus}
use rehlds_m.ConsoleView.{ConsoleView, BufferInfo, text_out, status_text, display_server_status}

-- Where the window did not scroll since the last call, the status is shown, whatever the last call
-- did.
pub display_server_status-again :
    (fps_text : ℕ → Text) (ljust : Text → ℕ → Text) (v : ConsoleView) (buffer : BufferInfo)
    (first second : ServerStatus)
    → let w = (display_server_status fps_text ljust (some buffer) first v).0 in
      (display_server_status fps_text ljust (some buffer) second w).1
      ≡ text_out v.console_device_context
          (ljust (status_text fps_text ljust second) (buffer.width * 2))
unfolding display_server_status
display_server_status-again fps_text ljust v buffer first second =
    elim (Bool-cases (buffer.top == v.current_scroll_pos)) [
      | inl e ↦ rw e (rw e refl)
      | inr e ↦ rw e (rw ((==_iff buffer.top buffer.top).1 refl) refl)
    ]
