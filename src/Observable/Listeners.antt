-- ===== src/Observable/Listeners.antt =====
-- Which listeners are called after others came and went.
use rehlds_m.Base.{
  ◌+◌, ◌<◌, ◌≡◌, refl, sym, ap, ◌∙◌, true, false, ◌==◌, List, [], ◌∷◌, ◌++◌, append-nil,
  append_assoc, arith,
}
use rehlds_m.Observable.{
  Handle, Observable, append_listener, erase, remove_listener, called, notify,
}

module _ {ℓ} {Callback : Type ℓ} where
  -- The handles in use are below the next one.
  abbrev pub AreOld : Handle → List (Handle × Callback) → Type 0
  AreOld n [] = Unit {0}
  AreOld n ((h, callback) ∷ rest) = (h < n) × AreOld n rest

  abbrev pub IsFresh : Observable Callback → Type 0
  IsFresh o = AreOld o.next_handle o.listeners

  unfoldable pub append_each : Observable Callback → List Callback → Observable Callback
  unfolding append_listener
  append_each o [] = o
  append_each o (callback ∷ callbacks) = append_each (append_listener o callback).1 callbacks

  pub called-append :
      (xs ys : List (Handle × Callback)) → called (xs ++ ys) ≡ called xs ++ called ys
  called-append [] ys = refl
  called-append ((h, callback) ∷ xs) ys = ap (λ q. callback ∷ q) (called-append xs ys)

  -- The listeners that are appended, behind those that were there, and under later handles.
  numbered : Handle → List Callback → List (Handle × Callback)
  numbered n [] = []
  numbered n (callback ∷ callbacks) = (n, callback) ∷ numbered (n + 1) callbacks

  called-numbered :
      (n : Handle) (callbacks : List Callback) → called (numbered n callbacks) ≡ callbacks
  unfolding numbered
  called-numbered n [] = refl
  called-numbered n (callback ∷ callbacks) =
      ap (λ q. callback ∷ q) (called-numbered (n + 1) callbacks)

  append_each-numbered :
      (o : Observable Callback) (callbacks : List Callback)
      → (append_each o callbacks).listeners ≡ o.listeners ++ numbered o.next_handle callbacks
  unfolding append_each append_listener numbered
  append_each-numbered o [] = sym (append-nil o.listeners)
  append_each-numbered o (callback ∷ callbacks) =
      append_each-numbered (append_listener o callback).1 callbacks
      ∙ append_assoc o.listeners ((o.next_handle, callback) ∷ [])
          (numbered (o.next_handle + 1) callbacks)

  -- The one under a handle that no older listener has is taken off.
  called-erase :
      (old rest : List (Handle × Callback)) (n : Handle) (callback : Callback)
      → AreOld n old
      → called (erase (old ++ ((n, callback) ∷ rest)) n) ≡ called old ++ called rest
  unfolding erase
  called-erase [] rest n callback h = let e : (n == n) ≡ true = ground arith in rw (e, erase) refl
  called-erase ((m, other) ∷ old) rest n callback h =
      let (before, h') = h in
      let e : (m == n) ≡ false = ground arith in
      rw (e, erase) (ap (λ q. other ∷ q) (called-erase old rest n callback h'))

  -- A listener that was appended, and then removed by its handle, with any others appended in
  -- between, is not called any more; all others are, in the order of their registration.
  pub notify-remove_listener :
      (o : Observable Callback) (callback : Callback) (callbacks : List Callback)
      → IsFresh o
      → let (handle, o') = append_listener o callback in
        (notify (append_each o' callbacks) ≡ notify o ++ (callback ∷ callbacks))
        × (notify (remove_listener (append_each o' callbacks) handle) ≡ notify o ++ callbacks)
  unfolding notify append_listener remove_listener
  notify-remove_listener o callback callbacks h =
      let n = o.next_handle in
      let rest = numbered (n + 1) callbacks in
      let all =
        append_each-numbered (append_listener o callback).1 callbacks
        ∙ append_assoc o.listeners ((n, callback) ∷ []) rest in
      (
        ap called all
            ∙ called-append o.listeners ((n, callback) ∷ rest)
            ∙ ap (λ q. called o.listeners ++ (callback ∷ q)) (called-numbered (n + 1) callbacks),
        ap (λ q. called (erase q n)) all
            ∙ called-erase o.listeners rest n callback h
            ∙ ap (λ q. called o.listeners ++ q) (called-numbered (n + 1) callbacks),
      )
