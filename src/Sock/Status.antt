-- ===== src/Sock/Status.antt =====
-- `status_json` and the hashes of daemon/src/state.rs, and `request_reload` of
-- daemon/src/config.rs.
use sundown.Base.{
  ℕ, Option, none, some, List, [], ◌∷◌, ◌++◌, Text, str, show_nat, show_bool, length, trim,
  is_empty, if◌then◌else◌,
}
use sundown.Engine.Reload.{reload_policy}
use sundown.Engine.Status.{frozen_packages, grace_pending}
use sundown.Engine.System.{System}
use sundown.Events.Json.{pieces}
use sundown.Sock.{
  Report, State, on_engine, quoted_or_null, text_list, hash_match, uptime_secs, bump_config_reloads,
}

abbrev hash_of : Option Report → Option Text
hash_of none = none
hash_of (some r) = some r.build_hash

abbrev loaded_flag : Option Report → Text
loaded_flag none = str "0"
loaded_flag (some r) = str "1"

-- read_expected_hash, read_expected_dex_hash and read_expected_hook_hash, on what is in the file
unfoldable pub expected_of : Option Text → Option Text
expected_of none = none
expected_of (some s) = let t = trim s in if is_empty t then none else some t

module _ (system : System) (Stream : Type 0) where
  open system use {Sys}

  -- the probes and the counters of the hooks
  unfoldable pub probe_status : State system Stream → List Text
  probe_status d =
      str ",\"daemon_ready\":1,\"zygisk_provider\":null,\"probe_stub_loaded\":"
      ∷ loaded_flag d.probe
      ∷ str ",\"probe_stub_build_hash\":"
      ∷ quoted_or_null (hash_of d.probe)
      ∷ str ",\"probe_dex_version\":"
      ∷ quoted_or_null (hash_of d.dex)
      ∷ str ",\"probe_dex_hash_match\":"
      ∷ hash_match d.expected_dex_hash d.dex
      ∷ str ",\"probe_hook_bridge_hash\":"
      ∷ quoted_or_null (hash_of d.hook_bridge)
      ∷ str ",\"probe_hook_bridge_hash_match\":"
      ∷ hash_match d.expected_hook_hash d.hook_bridge
      ∷ str ",\"focus_pkg\":"
      ∷ quoted_or_null d.last_focus_pkg
      ∷ str ",\"focus_changes\":"
      ∷ show_nat d.focus_changes
      ∷ str ",\"wakeup_events\":"
      ∷ show_nat d.wakeup_events
      ∷ []

  -- the snapshot of the engine
  unfoldable pub engine_status : State system Stream → List Text
  engine_status d =
      let e = d.engine.eng in
      str ",\"policy_enabled\":"
      ∷ show_bool e.policy.enabled
      ∷ str ",\"policy_revision\":"
      ∷ show_nat e.policy.revision
      ∷ str ",\"policy_apps\":"
      ∷ show_nat (length e.policy.apps)
      ∷ str ",\"events_count\":"
      ∷ show_nat (length e.events.buf)
      ∷ str ",\"events_total\":"
      ∷ show_nat e.events.total
      ∷ str ",\"frozen_packages\":"
      ∷ text_list (frozen_packages e)
      ∷ str ",\"grace_pending\":"
      ∷ text_list (grace_pending e)
      ∷ str ",\"freeze_ops\":"
      ∷ show_nat e.freeze_ops
      ∷ str ",\"unfreeze_ops\":"
      ∷ show_nat e.unfreeze_ops
      ∷ str ",\"wakeup_thaws\":"
      ∷ show_nat e.wakeup_thaws
      ∷ str ",\"wake_throttled\":"
      ∷ show_nat e.wake_throttled
      ∷ str ",\"discard_ops\":"
      ∷ show_nat e.discard_ops
      ∷ str ",\"discard_reasons\":{\"frozen_timeout\":"
      ∷ show_nat e.discard_frozen_timeout
      ∷ str ",\"mem_watermark\":"
      ∷ show_nat e.discard_mem_watermark
      ∷ str ",\"boot_reclaim\":"
      ∷ show_nat e.discard_boot_reclaim
      ∷ str "},\"discarded_packages\":"
      ∷ text_list e.discarded
      ∷ str ",\"discard_timeout_s\":"
      ∷ show_nat e.policy.discard_frozen_timeout_seconds
      ∷ []

  -- status_json; `pid` is the process of the daemon
  unfoldable pub status_json : ℕ → State system Stream → Text
  unfolding probe_status engine_status
  status_json pid d =
      str
        "{\"module\":\"sundown\",\"version\":\"0.4.62-l3\",\"release_no\":67,\"daemon_running\":1,"
      ++ (str "\"daemon_pid\":"
          ++ (show_nat pid
              ++ (pieces (probe_status d)
                  ++ (pieces (engine_status d)
                      ++ pieces (
                          str ",\"uptime_s\":"
                          ∷ show_nat (uptime_secs system Stream d)
                          ∷ str ",\"config_reloads\":"
                          ∷ show_nat d.config_reloads
                          ∷ str ",\"connections_served\":"
                          ∷ show_nat d.connections_served
                          ∷ str "}"
                          ∷ [])))))

  -- `read_to_string` of the three files
  module _ (hash_file dex_hash_file hook_hash_file : Sys → Option Text) where
    -- DaemonState::refresh_expected_hash
    unfoldable pub refresh_expected_hash : State system Stream → State system Stream
    refresh_expected_hash d =
        let s = d.engine.sys in
        record d {
          expected_probe_hash = expected_of (hash_file s);
          expected_dex_hash = expected_of (dex_hash_file s);
          expected_hook_hash = expected_of (hook_hash_file s);
        }

    -- request_reload
    unfoldable pub request_reload : State system Stream → State system Stream
    request_reload d =
        on_engine system Stream (λ st. reload_policy system st)
          (refresh_expected_hash (bump_config_reloads system Stream d))
