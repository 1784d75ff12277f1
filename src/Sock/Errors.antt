-- ===== src/Sock/Errors.antt =====
-- A command of daemon/src/sock.rs that is refused changes nothing.
use sundown.Base.{
  ℕ, ◌==◌, Bool, true, false, ◌||◌, Bool-cases, inl, inr, ◌≡◌, ◌⊎◌, refl, Option, none, some, List,
  [], ◌∷◌, Text, str, text_eq, is_empty, words, starts_with, any, nat_eq, get, if◌then◌else◌,
}
use sundown.Engine.Reload.{apply_preset, apply_known}
use sundown.Engine.State.{St}
use sundown.Engine.System.{System}
use sundown.Preset.{Preset}
use sundown.Sock.{
  sub_command, State, split_command, kv, kv_u32, bridge_response, dex_hello_response,
}
use sundown.Sock.Command.{
  DexCommand, dex_command, dex_dispatch, dex_line, handle_subscribe, subscribe_parsed,
  handle_capability_probe, dex_again, bridge_report,
}
use sundown.Sock.Event.{
  EventKind, event_kind, handle_event, event_words, on_event, focus_event, wakeup_event,
  exempt_event, proc_add_event, proc_remove_event, force_stop_event,
}
use sundown.Sock.Manage.{
  handle_policy, handle_preset, preset_apply, applied_reply, cleared_reply, reload_reply,
}
use sundown.Subscribe.{SubscribeResult, parse_subscription, update_dex_subscription}

-- a reply that starts with `{"ok":0`
abbrev pub is_refusal : Text → Bool
is_refusal reply = starts_with (str "{\"ok\":0") reply

-- a reply that is no refusal, or the state as it was
abbrev pub Refused {ℓ} : {A : Type ℓ} → A → Text × A → Type ℓ
Refused a r = (is_refusal r.0 ≡ false) ⊎ (r.1 ≡ a)

if-Refused {ℓ} :
    {A : Type ℓ} (a : A) (b : Bool) (x y : Text × A)
    → Refused a x
    → Refused a y
    → Refused a (if b then x else y)
if-Refused a true x y h k = h
if-Refused a false x y h k = k

module _ (system : System) where
  open system use {Sys}

  apply_known-Refused :
      (o : Option Preset) (name : Text) (st : St Sys)
      → let r = apply_known system o name st in
        Refused st (applied_reply name r.0 r.1.eng.policy, r.1)
  unfolding apply_known applied_reply starts_with
  apply_known-Refused none name st = inr refl
  apply_known-Refused (some p) name st = inl refl

  preset_apply-Refused : (name : Text) (st : St Sys) → Refused st (preset_apply system name st)
  unfolding preset_apply apply_preset
  preset_apply-Refused name st =
      if-Refused st (is_empty name) _ _ (inr refl)
        (apply_known-Refused (get name st.eng.presets.presets) name st)

  handle_preset-Refused : (arg : Text) (st : St Sys) → Refused st (handle_preset system arg st)
  unfolding handle_preset cleared_reply starts_with
  handle_preset-Refused arg st =
      let c = sub_command arg in
      if-Refused st (c.0 == str "list") _ _ (inr refl) (
        if-Refused st (c.0 == str "apply") _ _ (preset_apply-Refused c.1 st)
          (if-Refused st (c.0 == str "clear") _ _ (inl refl) (inr refl)))

  handle_policy-Refused : (arg : Text) (st : St Sys) → Refused st (handle_policy system arg st)
  unfolding handle_policy reload_reply starts_with
  handle_policy-Refused arg st =
      let c = sub_command arg in
      if-Refused st (c.0 == str "preset") _ _ (handle_preset-Refused c.1 st) (
        if-Refused st (c.0 == str "status") _ _ (inr refl)
          (if-Refused st (c.0 == str "reload") _ _ (inl refl) (inr refl)))

module _ (system : System) (Stream : Type 0) (pid_uid : ℕ → system.Sys → Option ℕ)
    (dex_present : system.Sys → Bool) where
  focus_event-Refused :
      (o : Option Text) (d : State system Stream)
      → Refused d (focus_event system Stream pid_uid o d)
  unfolding focus_event starts_with
  focus_event-Refused none d = inr refl
  focus_event-Refused (some pkg) d = inl refl

  exempt_event-Refused :
      (o : Option Text) (rest : List Text) (d : State system Stream)
      → Refused d (exempt_event system Stream pid_uid o rest d)
  unfolding exempt_event starts_with
  exempt_event-Refused none rest d = inr refl
  exempt_event-Refused (some pkg) rest d = inl refl

  proc_add_event-Refused :
      (pid : Option ℕ) (pkg : Option Text) (uid : Option ℕ) (d : State system Stream)
      → Refused d (proc_add_event system Stream pid_uid pid pkg uid d)
  unfolding proc_add_event starts_with
  proc_add_event-Refused none pkg uid d = inr refl
  proc_add_event-Refused (some pid) none uid d = inr refl
  proc_add_event-Refused (some pid) (some pkg) uid d = inl refl

  proc_remove_event-Refused :
      (o : Option ℕ) (d : State system Stream)
      → Refused d (proc_remove_event system Stream pid_uid o d)
  unfolding proc_remove_event starts_with
  proc_remove_event-Refused none d = inr refl
  proc_remove_event-Refused (some pid) d = inl refl

  force_stop_event-Refused :
      (o : Option Text) (d : State system Stream)
      → Refused d (force_stop_event system Stream pid_uid o d)
  unfolding force_stop_event starts_with
  force_stop_event-Refused none d = inr refl
  force_stop_event-Refused (some pkg) d = inl refl

  on_event-Refused :
      (k : EventKind) (kind : Text) (rest : List Text) (d : State system Stream)
      → Refused d (on_event system Stream pid_uid k kind rest d)
  unfolding on_event wakeup_event starts_with
  on_event-Refused EventKind.focus kind rest d = focus_event-Refused (kv (str "pkg") rest) d
  on_event-Refused EventKind.wakeup kind rest d = inl refl
  on_event-Refused EventKind.exempt kind rest d = exempt_event-Refused (kv (str "pkg") rest) rest d
  on_event-Refused EventKind.proc_add kind rest d =
      proc_add_event-Refused (kv_u32 (str "pid") rest) (kv (str "pkg") rest)
        (kv_u32 (str "uid") rest) d
  on_event-Refused EventKind.proc_remove kind rest d =
      proc_remove_event-Refused (kv_u32 (str "pid") rest) d
  on_event-Refused EventKind.force_stop kind rest d =
      force_stop_event-Refused (kv (str "pkg") rest) d
  on_event-Refused EventKind.unknown kind rest d = inr refl

  event_words-Refused :
      (ws : List Text) (d : State system Stream)
      → Refused d (event_words system Stream pid_uid ws d)
  unfolding event_words
  event_words-Refused [] d = on_event-Refused (event_kind []) [] [] d
  event_words-Refused (kind ∷ rest) d = on_event-Refused (event_kind kind) kind rest d

  subscribe_parsed-Refused :
      (id : ℕ) (r : SubscribeResult) (d : State system Stream)
      → Refused d (subscribe_parsed system Stream id r d)
  unfolding subscribe_parsed update_dex_subscription starts_with
  subscribe_parsed-Refused id (SubscribeResult.rejected e) d = inr refl
  subscribe_parsed-Refused id (SubscribeResult.accepted sub) d =
      elim (Bool-cases (any (λ c. c.0 == id) d.dex_clients.clients)) [
        | inl b ↦ rw b (inl refl)
        | inr b ↦ rw b (inr refl)
      ]

  handle_subscribe-Refused :
      (id : ℕ) (arg : Text) (d : State system Stream)
      → Refused d (handle_subscribe system Stream id arg d)
  unfolding handle_subscribe starts_with
  handle_subscribe-Refused id arg d =
      if-Refused d (is_empty arg || arg == str "clear") _ _ (inl refl) (
        if-Refused d (arg == str "query") _ _ (inr refl)
          (subscribe_parsed-Refused id (parse_subscription arg) d))

  dex_dispatch-Refused :
      (id : ℕ) (c : DexCommand) (cmd arg : Text) (d : State system Stream)
      → Refused d (dex_dispatch system Stream pid_uid dex_present id c cmd arg d)
  unfolding dex_dispatch handle_capability_probe dex_again bridge_report handle_event
      bridge_response dex_hello_response starts_with
  dex_dispatch-Refused id DexCommand.ping cmd arg d = inr refl
  dex_dispatch-Refused id DexCommand.hello_dex cmd arg d =
      if-Refused d (is_empty arg) _ _ (inr refl) (inl refl)
  dex_dispatch-Refused id DexCommand.subscribe cmd arg d = handle_subscribe-Refused id arg d
  dex_dispatch-Refused id DexCommand.capability_probe cmd arg d =
      if-Refused d (is_empty arg) _ _ (inr refl) (inl refl)
  dex_dispatch-Refused id DexCommand.report_bridge cmd arg d =
      if-Refused d (is_empty arg) _ _ (inr refl) (inl refl)
  dex_dispatch-Refused id DexCommand.event cmd arg d = event_words-Refused (words arg) d
  dex_dispatch-Refused id DexCommand.unsupported cmd arg d = inr refl

  -- A line of a subscribed connection, and a policy or preset command, that is answered with a
  -- refusal leaves the whole state as it was.
  pub sock-Refused :
      (id : ℕ) (line arg : Text) (d : State system Stream)
      → Refused d (dex_line system Stream pid_uid dex_present id line d)
        × Refused d.engine (handle_policy system arg d.engine)
  unfolding dex_line
  sock-Refused id line arg d =
      let c = split_command line in
      (
        dex_dispatch-Refused id (dex_command c.0) c.0 c.1 d,
        handle_policy-Refused system arg d.engine,
      )
