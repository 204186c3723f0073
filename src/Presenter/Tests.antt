-- ===== src/Presenter/Tests.antt =====
-- A search that is asked when the loop has ended.
use rehlds_m.Base.{◌≡◌, refl, none, List, [], ◌∷◌, Text, true}
use rehlds_m.Base.Int.{pos}
use rehlds_m.ServerLoop.{Loop, stopped, not_set, runs, asks}
use rehlds_m.Presenter.Matches.{Searches, ask, get, later, get-ask_stopped}

abbrev ended : Loop
ended = record {
  server = record {
    pingboost_level = not_set;
    target_fps_ = pos 0;
    status = record { fps = 0; num_players = 0; max_players = 0; current_map = [] };
    task_queue = record { queue = []; sleepers = [] };
    input_queue = record { queue = []; sleepers = [] };
    listeners = record { listeners = []; next_handle = 0 };
  };
  phase = stopped;
  fulfilled = 4 ∷ [];
  received = [];
}

abbrev searches : Searches
searches = record { loop = ended; asked = [] }

abbrev echo : Text → List Text
echo command = command ∷ []

get-ask_stopped_example :
    get echo (later echo (ask echo 5 searches (b'm' ∷ [])) (runs true ∷ asks 6 ∷ runs true ∷ [])) 5
    ≡ none
get-ask_stopped_example =
    get-ask_stopped echo searches 5 (b'm' ∷ []) (runs true ∷ asks 6 ∷ runs true ∷ []) refl refl
