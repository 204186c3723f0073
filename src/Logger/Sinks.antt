-- ===== src/Logger/Sinks.antt =====
-- Where messages go.
use rehlds_m.Base.{◌≡◌, refl, Bool, true, false, if◌then◌else◌, [], ◌∷◌, Text}
use rehlds_m.Logger.{log_init, log_init_console, log_output_sink, file_sink}

-- Whatever is asked for, messages go to the view first; they go to the named file too exactly if
-- debugging to a file is asked for, and without that the settings name no file.
pub log_init_console-sinks :
    (con_debug : Bool) (logfile : Text)
    → ((log_init_console con_debug logfile).sinks
        ≡ log_output_sink ∷ (if con_debug then file_sink logfile ∷ [] else []))
      × ((log_init_console con_debug logfile).settings.logfile
          ≡ (if con_debug then logfile else []))
unfolding log_init_console log_init
log_init_console-sinks true logfile = (refl, refl)
log_init_console-sinks false logfile = (refl, refl)
