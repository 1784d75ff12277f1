-- ===== src/Sock/Steps.antt =====
-- What the event lines of daemon/src/sock.rs do to the engine: each is a run of its events.
use sundown.Base.{
  ℕ, ◌%◌, ◌==◌, nat_eq, Bool, true, false, Option, none, some, List, [], ◌∷◌, Text, str, text_eq,
  unwrap_or, or_else, if◌then◌else◌,
}
use sundown.Engine.Run.{
  Reach, focus, wakeup, exempt, force_stop, proc_add, proc_remove, notes, next,
}
use sundown.Engine.State.{St, emit, emit_system}
use sundown.Events.{EvLevel, EvAction, push_app, push_system}
use sundown.Engine.System.{System}
use sundown.Sock.{State, kv, kv_u32, kv_bool, bump_wakeup, record_focus}
use sundown.Sock.Event.{
  EventKind, event_kind, event_words, on_event, focus_event, wakeup_event, note_wakeup, pass_wakeup,
  exempt_event, proc_add_event, proc_remove_event, force_stop_event,
}

module _ (system : System) (Stream : Type 0) (pid_uid : ℕ → system.Sys → Option ℕ)
    (dex_present : system.Sys → Bool) (s : system.Sys) where
  -- the engine of a state is reached by a run
  abbrev Runs : Text × State system Stream → Type 0
  Runs r = Reach system s r.1.engine

  emit-Reach :
      (level : EvLevel) (action : EvAction) (pkg : Text) (reason msg : Option Text)
      (st : St system.Sys)
      → Reach system s st
      → Reach system s (emit system level action pkg reason msg st)
  unfolding emit
  emit-Reach level action pkg reason msg st h =
      next h
        (notes (push_app st.eng.events (system.epoch_secs st.sys) level action pkg reason msg) st)

  pub emit_system-Reach :
      (level : EvLevel) (action : EvAction) (reason msg : Option Text) (st : St system.Sys)
      → Reach system s st
      → Reach system s (emit_system system level action reason msg st)
  unfolding emit_system
  emit_system-Reach level action reason msg st h =
      next h
        (notes (push_system st.eng.events (system.epoch_secs st.sys) level action reason msg) st)

  focus_event-Runs :
      (o : Option Text) (d : State system Stream)
      → Reach system s d.engine
      → Runs (focus_event system Stream pid_uid o d)
  unfolding focus_event record_focus
  focus_event-Runs none d h = h
  focus_event-Runs (some pkg) d h =
      let st = emit system EvLevel.event EvAction.open_ pkg (some (str "focus")) none d.engine in
      next (emit-Reach EvLevel.event EvAction.open_ pkg (some (str "focus")) none d.engine h)
        (focus pkg st)

  note_wakeup-Runs :
      (o : Option Text) (reason : Text) (d : State system Stream)
      → Reach system s d.engine
      → Reach system s (note_wakeup system Stream pid_uid o reason d).engine
  unfolding note_wakeup
  note_wakeup-Runs none reason d h = h
  note_wakeup-Runs (some pkg) reason d h =
      emit-Reach EvLevel.event EvAction.open_ pkg (some (str "wakeup")) (some reason) d.engine h

  pass_wakeup-Runs :
      (o : Option Text) (src action : Text) (d : State system Stream)
      → Reach system s d.engine
      → Reach system s (pass_wakeup system Stream pid_uid o src action d).engine
  unfolding pass_wakeup
  pass_wakeup-Runs none src action d h = h
  pass_wakeup-Runs (some pkg) src action d h = next h (wakeup pkg src action d.engine)

  -- one of two states, by a test
  if-Runs :
      (b : Bool) (d d' : State system Stream)
      → Reach system s d.engine
      → Reach system s d'.engine
      → Reach system s (if b then d else d').engine
  if-Runs true d d' h h' = h
  if-Runs false d d' h h' = h'

  wakeup_event-Runs :
      (rest : List Text) (d : State system Stream)
      → Reach system s d.engine
      → Runs (wakeup_event system Stream pid_uid rest d)
  unfolding wakeup_event bump_wakeup
  wakeup_event-Runs rest d h =
      let counted = bump_wakeup system Stream d in
      let pkg = kv (str "pkg") rest in
      let reason = unwrap_or (kv (str "reason") rest) (str "?") in
      let noted = note_wakeup system Stream pid_uid pkg reason counted in
      pass_wakeup-Runs pkg reason (unwrap_or (kv (str "action") rest) (str "?"))
        (if counted.wakeup_events % 32 == 1 then noted else counted)
        (if-Runs (counted.wakeup_events % 32 == 1) noted counted
          (note_wakeup-Runs pkg reason counted h) h)

  exempt_event-Runs :
      (o : Option Text) (rest : List Text) (d : State system Stream)
      → Reach system s d.engine
      → Runs (exempt_event system Stream pid_uid o rest d)
  unfolding exempt_event
  exempt_event-Runs none rest d h = h
  exempt_event-Runs (some pkg) rest d h = next h (
      exempt pkg (kv_bool (str "fg") rest) (kv_bool (str "media") rest) (kv_bool (str "loc") rest)
        d.engine)

  proc_add_event-Runs :
      (pid : Option ℕ) (pkg : Option Text) (uid : Option ℕ) (d : State system Stream)
      → Reach system s d.engine
      → Runs (proc_add_event system Stream pid_uid pid pkg uid d)
  unfolding proc_add_event
  proc_add_event-Runs none pkg uid d h = h
  proc_add_event-Runs (some pid) none uid d h = h
  proc_add_event-Runs (some pid) (some pkg) uid d h =
      next h (proc_add pid pkg (or_else uid (pid_uid pid d.engine.sys)) d.engine)

  proc_remove_event-Runs :
      (pid : Option ℕ) (d : State system Stream)
      → Reach system s d.engine
      → Runs (proc_remove_event system Stream pid_uid pid d)
  unfolding proc_remove_event
  proc_remove_event-Runs none d h = h
  proc_remove_event-Runs (some pid) d h = next h (proc_remove pid d.engine)

  force_stop_event-Runs :
      (o : Option Text) (d : State system Stream)
      → Reach system s d.engine
      → Runs (force_stop_event system Stream pid_uid o d)
  unfolding force_stop_event
  force_stop_event-Runs none d h = h
  force_stop_event-Runs (some pkg) d h = next h (force_stop pkg d.engine)

  on_event-Runs :
      (k : EventKind) (kind : Text) (rest : List Text) (d : State system Stream)
      → Reach system s d.engine
      → Runs (on_event system Stream pid_uid k kind rest d)
  unfolding on_event
  on_event-Runs EventKind.focus kind rest d = focus_event-Runs (kv (str "pkg") rest) d
  on_event-Runs EventKind.wakeup kind rest d = wakeup_event-Runs rest d
  on_event-Runs EventKind.exempt kind rest d = exempt_event-Runs (kv (str "pkg") rest) rest d
  on_event-Runs EventKind.proc_add kind rest d =
      proc_add_event-Runs (kv_u32 (str "pid") rest) (kv (str "pkg") rest) (kv_u32 (str "uid") rest)
        d
  on_event-Runs EventKind.proc_remove kind rest d =
      proc_remove_event-Runs (kv_u32 (str "pid") rest) d
  on_event-Runs EventKind.force_stop kind rest d = force_stop_event-Runs (kv (str "pkg") rest) d
  on_event-Runs EventKind.unknown kind rest d = λ h. h

  pub event_words-Runs :
      (ws : List Text) (d : State system Stream)
      → Reach system s d.engine
      → Runs (event_words system Stream pid_uid ws d)
  unfolding event_words
  event_words-Runs [] d = on_event-Runs (event_kind []) [] [] d
  event_words-Runs (kind ∷ rest) d = on_event-Runs (event_kind kind) kind rest d
