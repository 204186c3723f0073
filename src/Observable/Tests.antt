-- ===== src/Observable/Tests.antt =====
-- Two listeners, one of them removed.
use rehlds_m.Base.{ℕ, ◌≡◌, refl, [], ◌∷◌}
use rehlds_m.Observable.{Observable, append_listener, remove_listener, erase, notify}

abbrev one : Observable ℕ
one = record { listeners = (4, 40) ∷ []; next_handle = 5 }

told_last : notify (remove_listener (append_listener one 50).1 4) ≡ 50 ∷ []
unfolding notify remove_listener append_listener erase
told_last = refl
