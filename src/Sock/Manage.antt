-- ===== src/Sock/Manage.antt =====
-- The commands of the management socket in daemon/src/sock.rs: policy and preset.
use sundown.Base.{
  ℕ, Option, none, some, List, [], ◌∷◌, ◌++◌, map, Text, str, ◌==◌, nat_eq, text_eq, get, is_empty,
  unwrap_or, join, show_nat, show_bool, if◌then◌else◌,
}
use sundown.Engine.Reload.{reload_policy, apply_preset, clear_preset}
use sundown.Engine.State.{EngineState, St}
use sundown.Engine.Status.{frozen_packages, grace_pending}
use sundown.Engine.System.{System}
use sundown.Events.Json.{pieces}
use sundown.Policy.{Policy}
use sundown.Preset.{Preset, names}
use sundown.Sock.{sub_command, quoted_or_null, text_list}

-- `policy status`
unfoldable pub policy_status : EngineState → Text
policy_status e =
    str "{\"ok\":1,\"enabled\":"
    ++ pieces (
        show_bool e.policy.enabled
        ∷ str ",\"revision\":"
        ∷ show_nat e.policy.revision
        ∷ str ",\"grace_seconds\":"
        ∷ show_nat e.policy.grace_seconds
        ∷ str ",\"cooldown_seconds\":"
        ∷ show_nat e.policy.cooldown_seconds
        ∷ str ",\"whitelist\":"
        ∷ text_list e.policy.whitelist
        ∷ str ",\"force\":"
        ∷ text_list e.policy.force
        ∷ str ",\"frozen_packages\":"
        ∷ text_list (frozen_packages e)
        ∷ str ",\"grace_pending\":"
        ∷ text_list (grace_pending e)
        ∷ str ",\"freeze_ops\":"
        ∷ show_nat e.freeze_ops
        ∷ str ",\"unfreeze_ops\":"
        ∷ show_nat e.unfreeze_ops
        ∷ str ",\"wakeup_thaws\":"
        ∷ show_nat e.wakeup_thaws
        ∷ str ",\"last_focus\":"
        ∷ quoted_or_null e.last_focus
        ∷ str "}"
        ∷ [])

-- `policy reload`, after it
unfoldable pub reload_reply : Policy → Text
reload_reply p =
    str "{\"ok\":1,\"enabled\":"
    ++ (show_bool p.enabled ++ (str ",\"revision\":" ++ (show_nat p.revision ++ str "}")))

-- `policy preset list`: a name is a key of the table, so its preset is there
unfoldable pub preset_item : Text → Option Preset → Text
preset_item name none = []
preset_item name (some p) = pieces (
    str "{\"name\":\""
    ∷ name
    ∷ str "\",\"enabled\":"
    ∷ show_bool p.enabled
    ∷ str ",\"grace_seconds\":"
    ∷ show_nat p.grace_seconds
    ∷ str ",\"cooldown_seconds\":"
    ∷ show_nat p.cooldown_seconds
    ∷ str ",\"keep_fg_service\":"
    ∷ show_bool p.keep_fg_service
    ∷ str ",\"keep_media\":"
    ∷ show_bool p.keep_media
    ∷ str "}"
    ∷ [])

unfoldable pub preset_list : EngineState → Text
unfolding preset_item
preset_list e =
    str "{\"ok\":1,\"presets\":["
    ++ pieces (
        join (str ",") (map (λ n. preset_item n (get n e.presets.presets)) (names e.presets))
        ∷ str "],\"active\":\""
        ∷ unwrap_or e.active_preset []
        ∷ str "\",\"revision\":"
        ∷ show_nat e.presets.revision
        ∷ str "}"
        ∷ [])

-- `policy preset apply`: the reply by the result, the error with `'` for each `"`
abbrev unquoted : ℕ → ℕ
unquoted c = if c == b'"' then b'\'' else c

unfoldable pub preset_error : Text → List Text → Text
preset_error name [] = str "预设表为空（action.toml 缺失或未定义预设）"
preset_error name (n ∷ ns) =
    str "预设不存在: " ++ (name ++ (str "（可用: " ++ (join (str ", ") (n ∷ ns) ++ str "）")))

unfoldable pub applied_reply : Text → Option (List Text) → Policy → Text
unfolding preset_error
applied_reply name (some avail) p =
    str "{\"ok\":0,\"error\":\"" ++ (map unquoted (preset_error name avail) ++ str "\"}")
applied_reply name none p =
    str "{\"ok\":1,\"applied\":\""
    ++ pieces (
        name
        ∷ str "\",\"enabled\":"
        ∷ show_bool p.enabled
        ∷ str ",\"grace_seconds\":"
        ∷ show_nat p.grace_seconds
        ∷ str ",\"cooldown_seconds\":"
        ∷ show_nat p.cooldown_seconds
        ∷ str ",\"keep_fg_service\":"
        ∷ show_bool p.keep_fg_service
        ∷ str ",\"keep_media\":"
        ∷ show_bool p.keep_media
        ∷ str "}"
        ∷ [])

-- `policy preset clear`, after it
unfoldable pub cleared_reply : EngineState → Text
cleared_reply e =
    str "{\"ok\":1,\"active\":\""
    ++ pieces (
        unwrap_or e.active_preset []
        ∷ str "\",\"enabled\":"
        ∷ show_bool e.policy.enabled
        ∷ str ",\"grace_seconds\":"
        ∷ show_nat e.policy.grace_seconds
        ∷ str "}"
        ∷ [])

module _ (system : System) where
  open system use {Sys}

  -- handle_preset; the lock is held over the change and the reply
  unfoldable pub preset_apply : Text → St Sys → Text × St Sys
  preset_apply name st =
      let r = apply_preset system name st in
      if is_empty name
      then (str "{\"ok\":0,\"error\":\"preset apply 缺少预设名（用法: policy preset apply <name>）\"}", st)
      else (applied_reply name r.0 r.1.eng.policy, r.1)

  unfoldable pub handle_preset : Text → St Sys → Text × St Sys
  unfolding preset_apply preset_list cleared_reply
  handle_preset arg st =
      let c = sub_command arg in
      let cleared = clear_preset system st in
      if c.0 == str "list"
      then (preset_list st.eng, st)
      else if c.0 == str "apply"
      then preset_apply c.1 st
      else if c.0 == str "clear"
      then (cleared_reply cleared.eng, cleared)
      else (str "{\"ok\":0,\"error\":\"preset: 用法 list | apply <name> | clear\"}", st)

  -- handle_policy
  unfoldable pub handle_policy : Text → St Sys → Text × St Sys
  unfolding handle_preset policy_status reload_reply
  handle_policy arg st =
      let c = sub_command arg in
      let reloaded = reload_policy system st in
      if c.0 == str "preset"
      then handle_preset c.1 st
      else if c.0 == str "status"
      then (policy_status st.eng, st)
      else if c.0 == str "reload"
      then (reload_reply reloaded.eng.policy, reloaded)
      else (str "{\"ok\":0,\"error\":\"policy: unknown subcommand: " ++ (c.0 ++ str "\"}"), st)
