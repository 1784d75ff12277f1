-- ===== src/Sock/Runs.antt =====
-- The connections of daemon/src/sock.rs drive the engine only along its runs.
use sundown.Base.{
  Bool-cases, inl, inr, ℕ, ◌==◌, Bool, true, false, ◌||◌, Option, some, List, [], ◌∷◌, ◌++◌, Text,
  str, text_eq, is_empty, words, if◌then◌else◌,
}
use sundown.Engine.Run.{Reach, reload, apply, clear, next}
use sundown.Engine.State.{St}
use sundown.Engine.System.{System}
use sundown.Events.{EvLevel, EvAction}
use sundown.Sock.{
  bump_config_reloads, sub_command, State, report, split_command, record_dex, record_bridge,
}
use sundown.Sock.Command.{
  DexCommand, dex_command, dex_dispatch, dex_line, dex_subscription_loop, handle_subscribe,
  subscribe_parsed, handle_capability_probe, dex_again, bridge_report,
}
use sundown.Sock.Event.{handle_event}
use sundown.Sock.Manage.{handle_policy, handle_preset, preset_apply}
use sundown.Sock.Session.{subscribed, hello_dex}
use sundown.Sock.Status.{request_reload, refresh_expected_hash}
use sundown.Sock.Steps.{emit_system-Reach, event_words-Runs}
use sundown.Subscribe.{register_dex_client, SubscribeResult, parse_subscription}

module _ (system : System) (s : system.Sys) where
  abbrev Managed : Text × St system.Sys → Type 0
  Managed r = Reach system s r.1

  -- one of two results, by a test
  if-Managed :
      (b : Bool) (x y : Text × St system.Sys) → Managed x → Managed y → Managed (if b then x else y)
  if-Managed true x y h k = h
  if-Managed false x y h k = k

  preset_apply-Managed :
      (name : Text) (st : St system.Sys) → Reach system s st → Managed (preset_apply system name st)
  unfolding preset_apply
  preset_apply-Managed name st h = if-Managed (is_empty name) _ _ h (next h (apply name st))

  handle_preset-Managed :
      (arg : Text) (st : St system.Sys) → Reach system s st → Managed (handle_preset system arg st)
  unfolding handle_preset
  handle_preset-Managed arg st h =
      let c = sub_command arg in
      if-Managed (c.0 == str "list") _ _ h (
        if-Managed (c.0 == str "apply") _ _ (preset_apply-Managed c.1 st h)
          (if-Managed (c.0 == str "clear") _ _ (next h (clear st)) h))

  handle_policy-Managed :
      (arg : Text) (st : St system.Sys) → Reach system s st → Managed (handle_policy system arg st)
  unfolding handle_policy
  handle_policy-Managed arg st h =
      let c = sub_command arg in
      if-Managed (c.0 == str "preset") _ _ (handle_preset-Managed c.1 st h) (
        if-Managed (c.0 == str "status") _ _ h
          (if-Managed (c.0 == str "reload") _ _ (next h (reload st)) h))

module _ (system : System) (Stream : Type 0) (pid_uid : ℕ → system.Sys → Option ℕ)
    (dex_present : system.Sys → Bool) (s : system.Sys) where
  abbrev Runs : Text × State system Stream → Type 0
  Runs r = Reach system s r.1.engine

  if-Runs :
      (b : Bool) (x y : Text × State system Stream) → Runs x → Runs y → Runs (if b then x else y)
  if-Runs true x y h k = h
  if-Runs false x y h k = k

  report-Reach :
      (reason msg : Text) (d : State system Stream)
      → Reach system s d.engine
      → Reach system s (report system Stream reason msg d).engine
  report-Reach reason msg d =
      emit_system-Reach system Stream pid_uid dex_present s EvLevel.report EvAction.system
        (some reason) (some msg) d.engine

  subscribe_parsed-Runs :
      (id : ℕ) (r : SubscribeResult) (d : State system Stream)
      → Reach system s d.engine
      → Runs (subscribe_parsed system Stream id r d)
  unfolding subscribe_parsed
  subscribe_parsed-Runs id (SubscribeResult.rejected e) d h = h
  subscribe_parsed-Runs id (SubscribeResult.accepted sub) d h = h

  handle_subscribe-Runs :
      (id : ℕ) (arg : Text) (d : State system Stream)
      → Reach system s d.engine
      → Runs (handle_subscribe system Stream id arg d)
  unfolding handle_subscribe
  handle_subscribe-Runs id arg d h =
      if-Runs (is_empty arg || arg == str "clear") _ _ h
        (if-Runs (arg == str "query") _ _ h (subscribe_parsed-Runs id (parse_subscription arg) d h))

  handle_capability_probe-Runs :
      (arg : Text) (d : State system Stream)
      → Reach system s d.engine
      → Runs (handle_capability_probe system Stream arg d)
  unfolding handle_capability_probe
  handle_capability_probe-Runs arg d h = if-Runs (is_empty arg) _ _ h (
      report-Reach (str "capability_probe_dex") (str "rom_classes_probed")
        (record d { dex_capability = some arg }) h)

  dex_again-Runs :
      (arg : Text) (d : State system Stream)
      → Reach system s d.engine
      → Runs (dex_again system Stream pid_uid dex_present arg d)
  unfolding dex_again record_dex
  dex_again-Runs arg d h = if-Runs (is_empty arg) _ _ h (
      report-Reach (str "dex_reregister") (str "version=" ++ arg) (record_dex system Stream arg d)
        h)

  bridge_report-Runs :
      (arg : Text) (d : State system Stream)
      → Reach system s d.engine
      → Runs (bridge_report system Stream pid_uid dex_present arg d)
  unfolding bridge_report record_bridge
  bridge_report-Runs arg d h = if-Runs (is_empty arg) _ _ h (
      report-Reach (str "bridge_report") (str "hash=" ++ arg) (record_bridge system Stream arg d) h)

  handle_event-Runs :
      (arg : Text) (d : State system Stream)
      → Reach system s d.engine
      → Runs (handle_event system Stream pid_uid arg d)
  unfolding handle_event
  handle_event-Runs arg d = event_words-Runs system Stream pid_uid dex_present s (words arg) d

  dex_dispatch-Runs :
      (id : ℕ) (c : DexCommand) (cmd arg : Text) (d : State system Stream)
      → Reach system s d.engine
      → Runs (dex_dispatch system Stream pid_uid dex_present id c cmd arg d)
  unfolding dex_dispatch
  dex_dispatch-Runs id DexCommand.ping cmd arg d = λ h. h
  dex_dispatch-Runs id DexCommand.hello_dex cmd arg d = dex_again-Runs arg d
  dex_dispatch-Runs id DexCommand.subscribe cmd arg d = handle_subscribe-Runs id arg d
  dex_dispatch-Runs id DexCommand.capability_probe cmd arg d = handle_capability_probe-Runs arg d
  dex_dispatch-Runs id DexCommand.report_bridge cmd arg d = bridge_report-Runs arg d
  dex_dispatch-Runs id DexCommand.event cmd arg d = handle_event-Runs arg d
  dex_dispatch-Runs id DexCommand.unsupported cmd arg d = λ h. h

  dex_line-Runs :
      (id : ℕ) (line : Text) (d : State system Stream)
      → Reach system s d.engine
      → Runs (dex_line system Stream pid_uid dex_present id line d)
  unfolding dex_line
  dex_line-Runs id line d =
      let c = split_command line in dex_dispatch-Runs id (dex_command c.0) c.0 c.1 d

  dex_subscription_loop-Reach :
      (id : ℕ) (ls : List Text) (d : State system Stream)
      → Reach system s d.engine
      → Reach system s (dex_subscription_loop system Stream pid_uid dex_present id ls d).1.engine
  unfolding dex_subscription_loop
  dex_subscription_loop-Reach id [] d h = h
  dex_subscription_loop-Reach id (line ∷ ls) d h =
      dex_subscription_loop-Reach id ls (dex_line system Stream pid_uid dex_present id line d).1
        (dex_line-Runs id line d h)

  hello_dex-Reach :
      (arg : Text) (stream : Stream) (ls : List Text) (d : State system Stream)
      → Reach system s d.engine
      → Reach system s (hello_dex system Stream pid_uid dex_present arg stream ls d).1.engine
  unfolding hello_dex subscribed record_dex
  hello_dex-Reach arg stream ls d h =
      let d' =
        report system Stream (str "dex_handshake") (str "version=" ++ arg)
          (record_dex system Stream arg d) in
      let r = register_dex_client Stream stream d'.dex_clients in
      elim (Bool-cases (is_empty arg)) [
        | inl b ↦ rw b h
        | inr b ↦ rw b (
            dex_subscription_loop-Reach r.0 ls (record d' { dex_clients = r.1 })
              (report-Reach (str "dex_handshake") (str "version=" ++ arg)
                (record_dex system Stream arg d) h))
      ]

  -- From a state whose engine a run of the daemon reaches, whatever lines a connection sends
  -- after its hello-dex, whatever policy or preset command the management socket gets, and after
  -- a reload of the configuration, the engine is again in a state that a run reaches.
  pub sock-Reach :
      (hash_file dex_hash_file hook_hash_file : system.Sys → Option Text)
      → (version : Text) (stream : Stream) (ls : List Text) (arg : Text) (d : State system Stream)
      → Reach system s d.engine
      → Reach system s (hello_dex system Stream pid_uid dex_present version stream ls d).1.engine
        × Reach system s (handle_policy system arg d.engine).1
        × Reach system s
            (request_reload system Stream hash_file dex_hash_file hook_hash_file d).engine
  unfolding request_reload refresh_expected_hash bump_config_reloads
  sock-Reach hash_file dex_hash_file hook_hash_file version stream ls arg d h = (
    hello_dex-Reach version stream ls d h,
    handle_policy-Managed system s arg d.engine h,
    next h (reload d.engine),
  )
