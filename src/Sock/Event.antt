-- ===== src/Sock/Event.antt =====
-- `handle_event` of daemon/src/sock.rs: a line of the framework hooks becomes a call of the engine.
use sundown.Base.{
  ℕ, ◌%◌, Option, none, some, List, [], ◌∷◌, ◌++◌, Text, str, ◌==◌, nat_eq, text_eq, or_else,
  unwrap_or, words, if◌then◌else◌,
}
use sundown.Engine.Focus.{on_focus, on_exempt, on_proc_add, on_proc_remove, on_force_stop}
use sundown.Engine.State.{emit}
use sundown.Engine.System.{System}
use sundown.Engine.Wakeup.{on_wakeup}
use sundown.Events.{EvLevel, EvAction}
use sundown.Sock.{State, on_engine, kv, kv_u32, kv_bool, ok_reply, record_focus, bump_wakeup}

-- the kind of an event line
pub data EventKind : Type 0 where
  focus : EventKind
  wakeup : EventKind
  exempt : EventKind
  proc_add : EventKind
  proc_remove : EventKind
  force_stop : EventKind
  unknown : EventKind

unfoldable pub event_kind : Text → EventKind
event_kind kind =
    if kind == str "focus"
    then focus
    else if kind == str "wakeup"
    then wakeup
    else if kind == str "exempt"
    then exempt
    else if kind == str "proc-add"
    then proc_add
    else if kind == str "proc-remove"
    then proc_remove
    else if kind == str "force-stop"
    then force_stop
    else unknown

module _ (system : System) (Stream : Type 0) (pid_uid : ℕ → system.Sys → Option ℕ) where
  -- `event focus`
  unfoldable pub focus_event : Option Text → State system Stream → Text × State system Stream
  focus_event none d = (str "{\"ok\":0,\"error\":\"event focus requires pkg=\"}", d)
  focus_event (some pkg) d =
      let opened =
        on_engine system Stream
          (λ st. emit system EvLevel.event EvAction.open_ pkg (some (str "focus")) none st)
          (record_focus system Stream pkg d) in
      (ok_reply, on_engine system Stream (λ st. on_focus system pkg st) opened)

  -- `event wakeup`: one event in thirty-two is recorded, each is passed on
  unfoldable pub note_wakeup : Option Text → Text → State system Stream → State system Stream
  note_wakeup none reason d = d
  note_wakeup (some pkg) reason d =
      on_engine system Stream
        (λ st. emit system EvLevel.event EvAction.open_ pkg (some (str "wakeup")) (some reason) st)
        d

  unfoldable pub pass_wakeup : Option Text → Text → Text → State system Stream → State system Stream
  pass_wakeup none src action d = d
  pass_wakeup (some pkg) src action d =
      on_engine system Stream (λ st. on_wakeup system pkg src action st) d

  unfoldable pub wakeup_event : List Text → State system Stream → Text × State system Stream
  wakeup_event rest d =
      let counted = bump_wakeup system Stream d in
      let pkg = kv (str "pkg") rest in
      let reason = unwrap_or (kv (str "reason") rest) (str "?") in
      let action = unwrap_or (kv (str "action") rest) (str "?") in
      let noted =
        if counted.wakeup_events % 32 == 1 then note_wakeup pkg reason counted else counted in
      (ok_reply, pass_wakeup pkg reason action noted)

  -- `event exempt`
  unfoldable pub exempt_event :
      Option Text → List Text → State system Stream → Text × State system Stream
  exempt_event none rest d = (str "{\"ok\":0,\"error\":\"event exempt requires pkg=\"}", d)
  exempt_event (some pkg) rest d =
      let fg = kv_bool (str "fg") rest in
      let media = kv_bool (str "media") rest in
      let loc = kv_bool (str "loc") rest in
      (ok_reply, on_engine system Stream (λ st. on_exempt system pkg fg media loc st) d)

  -- `event proc-add`: a uid that is not in the line is asked of the kernel
  unfoldable pub proc_add_event :
      Option ℕ → Option Text → Option ℕ → State system Stream → Text × State system Stream
  proc_add_event (some pid) (some pkg) uid d = (
    ok_reply,
    on_engine system Stream
        (λ st. record st { eng = on_proc_add pid pkg (or_else uid (pid_uid pid st.sys)) st.eng }) d,
  )
  proc_add_event none pkg uid d =
      (str "{\"ok\":0,\"error\":\"event proc-add requires pid= and pkg=\"}", d)
  proc_add_event (some pid) none uid d =
      (str "{\"ok\":0,\"error\":\"event proc-add requires pid= and pkg=\"}", d)

  -- `event proc-remove`
  unfoldable pub proc_remove_event : Option ℕ → State system Stream → Text × State system Stream
  proc_remove_event none d = (str "{\"ok\":0,\"error\":\"event proc-remove requires pid=\"}", d)
  proc_remove_event (some pid) d =
      (ok_reply, on_engine system Stream (λ st. record st { eng = on_proc_remove pid st.eng }) d)

  -- `event force-stop`
  unfoldable pub force_stop_event : Option Text → State system Stream → Text × State system Stream
  force_stop_event none d = (str "{\"ok\":0,\"error\":\"event force-stop requires pkg=\"}", d)
  force_stop_event (some pkg) d =
      (ok_reply, on_engine system Stream (λ st. on_force_stop system pkg st) d)

  unfoldable pub on_event :
      EventKind → Text → List Text → State system Stream → Text × State system Stream
  on_event focus kind rest d = focus_event (kv (str "pkg") rest) d
  on_event wakeup kind rest d = wakeup_event rest d
  on_event exempt kind rest d = exempt_event (kv (str "pkg") rest) rest d
  on_event proc_add kind rest d =
      proc_add_event (kv_u32 (str "pid") rest) (kv (str "pkg") rest) (kv_u32 (str "uid") rest) d
  on_event proc_remove kind rest d = proc_remove_event (kv_u32 (str "pid") rest) d
  on_event force_stop kind rest d = force_stop_event (kv (str "pkg") rest) d
  on_event unknown kind rest d =
      (str "{\"ok\":1,\"ignored\":1,\"kind\":\"" ++ (kind ++ str "\"}"), d)

  -- handle_event: the first word is the kind, the others are its arguments
  unfoldable pub event_words : List Text → State system Stream → Text × State system Stream
  unfolding on_event event_kind
  event_words [] d = on_event (event_kind []) [] [] d
  event_words (kind ∷ rest) d = on_event (event_kind kind) kind rest d

  unfoldable pub handle_event : Text → State system Stream → Text × State system Stream
  unfolding event_words
  handle_event arg d = event_words (words arg) d
