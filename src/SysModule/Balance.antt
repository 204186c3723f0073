-- ===== src/SysModule/Balance.antt =====
-- What the system opened for a wrapper is closed once, and before the next is opened.
use rehlds_m.Base.{
  ℕ, Text, if◌then◌else◌, ◌≡◌, refl, sym, ap, ◌∙◌, true, Bool-cases, inl, inr, Option, none, some,
  List, [], ◌∷◌, ◌++◌, append-nil,
}
use rehlds_m.ModuleWrapper.{Handle, is_loaded, load, unload}
use rehlds_m.SysModule.{
  Opened, Loader, rtld_now, load_module, unload_module, ModuleCall, loads, unloads, handle_list,
  load_opened, unload_opened, module_step, module_run, unopened,
}

-- The handles that were opened are those closed, and then the one that the wrapper holds.
abbrev pub IsBalanced : Opened → Type 0
IsBalanced o = o.opened ≡ o.closed ++ handle_list o.wrapper.handle

module _ (name : Text) (interfaces : List (Text × ℕ)) (opened closed : List Handle) where
  abbrev with_handle : Option Handle → Opened
  with_handle handle = record {
    name = name;
    wrapper = record { handle = handle; interfaces = interfaces };
    opened = opened;
    closed = closed;
  }

  loaded_found :
      (found handle : Option Handle)
      → IsBalanced (with_handle handle)
      → opened ++ (if is_loaded (with_handle handle).wrapper then [] else handle_list found)
        ≡ closed ++ handle_list (load found (with_handle handle).wrapper).1.handle
  unfolding load
  loaded_found found (some handle) h = append-nil opened ∙ h
  loaded_found none none h = append-nil opened ∙ h
  loaded_found (some found) none h = ap (λ l. l ++ (found ∷ [])) (h ∙ append-nil closed)

  closed_by :
      (loader : Loader) (handle : Option Handle)
      → IsBalanced (with_handle handle)
      → IsBalanced (unload_opened loader (with_handle handle))
  unfolding unload_opened unload
  closed_by loader none h = h ∙ ap (λ l. l ++ []) (sym (append-nil closed))
  closed_by loader (some handle) h = elim (Bool-cases (unload_module loader handle)) [
    | inl e ↦ rw e (h ∙ sym (append-nil (closed ++ (handle ∷ []))))
    | inr e ↦ rw e (h ∙ ap (λ l. l ++ (handle ∷ [])) (sym (append-nil closed)))
  ]

  emptied :
      (loader : Loader) (handle : Option Handle)
      → ((h : Handle) → unload_module loader h ≡ true)
      → (unload_opened loader (with_handle handle)).wrapper.handle ≡ none
  unfolding unload_opened unload
  emptied loader none h = refl
  emptied loader (some handle) h = rw (h handle) refl

module_step-IsBalanced :
    (o : Opened) (call : ModuleCall) → IsBalanced o → IsBalanced (module_step o call)
unfolding module_step load_opened
module_step-IsBalanced o (loads fs loader) h =
    loaded_found o.name o.wrapper.interfaces o.opened o.closed
      (load_module fs loader o.name rtld_now) o.wrapper.handle h
module_step-IsBalanced o (unloads loader) h =
    closed_by o.name o.wrapper.interfaces o.opened o.closed loader o.wrapper.handle h

keeps_balance :
    (o : Opened) (calls : List ModuleCall) → IsBalanced o → IsBalanced (module_run o calls)
unfolding module_run
keeps_balance o [] h = h
keeps_balance o (call ∷ calls) h =
    keeps_balance (module_step o call) calls (module_step-IsBalanced o call h)

-- After any calls of load and unload on a new wrapper, with any file systems and any results of the
-- loader, also failures of closing: the handles that were opened are, in their order, those that
-- were closed and then the one that the wrapper holds, so that each is closed at most once and
-- before the next is opened. Where closing then works, the destructor's unload closes the last.
pub module_run-IsBalanced :
    (name : Text) (calls : List ModuleCall) (loader : Loader)
    → ((handle : Handle) → unload_module loader handle ≡ true)
    → let o = module_run (unopened name) calls in
      let end = unload_opened loader o in
      IsBalanced o × (end.wrapper.handle ≡ none) × (end.closed ≡ o.opened)
unfolding unload_opened
module_run-IsBalanced name calls loader works =
    let o = module_run (unopened name) calls in
    let end = unload_opened loader o in
    let balanced = keeps_balance (unopened name) calls refl in
    let nothing =
      emptied o.name o.wrapper.interfaces o.opened o.closed loader o.wrapper.handle works in
    let closing =
      closed_by o.name o.wrapper.interfaces o.opened o.closed loader o.wrapper.handle balanced in
    (
      balanced,
      nothing,
      sym (append-nil end.closed)
          ∙ ap (λ h. end.closed ++ handle_list h) (sym nothing)
          ∙ sym closing,
    )
