-- ===== src/Sock/Session/Keeps.antt =====
-- The event lines of a connection leave the registry of subscribers as it is.
use sundown.Base.{
  ℕ, ◌==◌, nat_eq, Bool, true, false, ◌≡◌, refl, ◌∙◌, Option, none, some, List, [], ◌∷◌, Text, str,
  text_eq, unwrap_or, ◌%◌, if◌then◌else◌,
}
use sundown.Engine.System.{System}
use sundown.Sock.{State, kv, kv_u32, record_focus, bump_wakeup}
use sundown.Sock.Event.{
  EventKind, event_kind, event_words, on_event, focus_event, wakeup_event, note_wakeup, pass_wakeup,
  exempt_event, proc_add_event, proc_remove_event, force_stop_event,
}

module _ (system : System) (Stream : Type 0) (pid_uid : ℕ → system.Sys → Option ℕ)
    (dex_present : system.Sys → Bool) where
  -- the registry is kept
  abbrev Keeps : State system Stream → Text × State system Stream → Type 0
  Keeps d r = r.1.dex_clients ≡ d.dex_clients

  focus_event-Keeps :
      (o : Option Text) (d : State system Stream) → Keeps d (focus_event system Stream pid_uid o d)
  unfolding focus_event record_focus
  focus_event-Keeps none d = refl
  focus_event-Keeps (some pkg) d = refl

  note_wakeup-keeps :
      (o : Option Text) (reason : Text) (d : State system Stream)
      → (note_wakeup system Stream pid_uid o reason d).dex_clients ≡ d.dex_clients
  unfolding note_wakeup
  note_wakeup-keeps none reason d = refl
  note_wakeup-keeps (some pkg) reason d = refl

  pass_wakeup-keeps :
      (o : Option Text) (src action : Text) (d : State system Stream)
      → (pass_wakeup system Stream pid_uid o src action d).dex_clients ≡ d.dex_clients
  unfolding pass_wakeup
  pass_wakeup-keeps none src action d = refl
  pass_wakeup-keeps (some pkg) src action d = refl

  if-keeps :
      (b : Bool) (d d' : State system Stream)
      → d'.dex_clients ≡ d.dex_clients
      → (if b then d' else d).dex_clients ≡ d.dex_clients
  if-keeps true d d' h = h
  if-keeps false d d' h = refl

  wakeup_event-Keeps :
      (rest : List Text) (d : State system Stream)
      → Keeps d (wakeup_event system Stream pid_uid rest d)
  unfolding wakeup_event bump_wakeup
  wakeup_event-Keeps rest d =
      let counted = bump_wakeup system Stream d in
      let pkg = kv (str "pkg") rest in
      let reason = unwrap_or (kv (str "reason") rest) (str "?") in
      let noted = note_wakeup system Stream pid_uid pkg reason counted in
      pass_wakeup-keeps pkg reason (unwrap_or (kv (str "action") rest) (str "?"))
        (if counted.wakeup_events % 32 == 1 then noted else counted)
      ∙ if-keeps (counted.wakeup_events % 32 == 1) counted noted
          (note_wakeup-keeps pkg reason counted)

  exempt_event-Keeps :
      (o : Option Text) (rest : List Text) (d : State system Stream)
      → Keeps d (exempt_event system Stream pid_uid o rest d)
  unfolding exempt_event
  exempt_event-Keeps none rest d = refl
  exempt_event-Keeps (some pkg) rest d = refl

  proc_add_event-Keeps :
      (pid : Option ℕ) (pkg : Option Text) (uid : Option ℕ) (d : State system Stream)
      → Keeps d (proc_add_event system Stream pid_uid pid pkg uid d)
  unfolding proc_add_event
  proc_add_event-Keeps none pkg uid d = refl
  proc_add_event-Keeps (some pid) none uid d = refl
  proc_add_event-Keeps (some pid) (some pkg) uid d = refl

  proc_remove_event-Keeps :
      (o : Option ℕ) (d : State system Stream)
      → Keeps d (proc_remove_event system Stream pid_uid o d)
  unfolding proc_remove_event
  proc_remove_event-Keeps none d = refl
  proc_remove_event-Keeps (some pid) d = refl

  force_stop_event-Keeps :
      (o : Option Text) (d : State system Stream)
      → Keeps d (force_stop_event system Stream pid_uid o d)
  unfolding force_stop_event
  force_stop_event-Keeps none d = refl
  force_stop_event-Keeps (some pkg) d = refl

  on_event-Keeps :
      (k : EventKind) (kind : Text) (rest : List Text) (d : State system Stream)
      → Keeps d (on_event system Stream pid_uid k kind rest d)
  unfolding on_event
  on_event-Keeps EventKind.focus kind rest d = focus_event-Keeps (kv (str "pkg") rest) d
  on_event-Keeps EventKind.wakeup kind rest d = wakeup_event-Keeps rest d
  on_event-Keeps EventKind.exempt kind rest d = exempt_event-Keeps (kv (str "pkg") rest) rest d
  on_event-Keeps EventKind.proc_add kind rest d =
      proc_add_event-Keeps (kv_u32 (str "pid") rest) (kv (str "pkg") rest) (kv_u32 (str "uid") rest)
        d
  on_event-Keeps EventKind.proc_remove kind rest d =
      proc_remove_event-Keeps (kv_u32 (str "pid") rest) d
  on_event-Keeps EventKind.force_stop kind rest d = force_stop_event-Keeps (kv (str "pkg") rest) d
  on_event-Keeps EventKind.unknown kind rest d = refl

  pub event_words-Keeps :
      (ws : List Text) (d : State system Stream) → Keeps d (event_words system Stream pid_uid ws d)
  unfolding event_words
  event_words-Keeps [] d = on_event-Keeps (event_kind []) [] [] d
  event_words-Keeps (kind ∷ rest) d = on_event-Keeps (event_kind kind) kind rest d
