-- ===== src/Sock.antt =====
-- The shared state of daemon/src/state.rs and what the handlers of daemon/src/sock.rs share: the
-- arguments of a line, and the replies to a handshake. A connection is a value of a parameter type.
pub mod Event
pub mod Command
pub mod Manage
pub mod Queries
pub mod Status
pub mod Session
pub mod Dex
pub mod Steps
pub mod Runs
pub mod Errors
use sundown.Base.{
  ℕ, ◌+◌, ◌-◌, ◌/◌, Bool, true, false, Option, none, some, List, [], ◌∷◌, ◌++◌, map, Text, str,
  ◌==◌, text_eq, is_empty, or_else, strip_prefix, parse_u32, join, show_nat, split_once, trim,
  words, Instant, if◌then◌else◌,
}
use sundown.Engine.State.{St, emit_system}
use sundown.Engine.Status.{sundown_frozen_uids, sundown_candidate_uids}
use sundown.Engine.System.{System}
use sundown.Events.{EvLevel, EvAction}
use sundown.Events.Json.{pieces}
use sundown.Subscribe.{Registry}

-- ProbeReport, DexReport and BridgeReport: the hash, and the seconds after the start
pub record Report : Type 0 where
  pub build_hash : Text
  pub reported_after_secs : ℕ

-- DaemonState without the probed capability; `engine` is the engine with the world it acts on
pub record DaemonState (S : Type 0) (Stream : Type 0) : Type 0 where
  pub started_at : Instant
  pub config_reloads : ℕ
  pub connections_served : ℕ
  pub probe : Option Report
  pub expected_probe_hash : Option Text
  pub dex : Option Report
  pub expected_dex_hash : Option Text
  pub dex_clients : Registry Stream
  pub hook_bridge : Option Report
  pub expected_hook_hash : Option Text
  pub last_focus_pkg : Option Text
  pub focus_changes : ℕ
  pub wakeup_events : ℕ
  pub engine : St S
  pub dex_capability : Option Text

-- `line.trim().splitn(2, ' ')`: the command, and the trimmed rest
abbrev pub command_of : Option (Text × Text) → Text → Text × Text
command_of none line = (line, [])
command_of (some (cmd, arg)) line = (cmd, trim arg)

unfoldable pub split_command : Text → Text × Text
split_command line = let l = trim line in command_of (split_once b' ' l) l

-- `arg.splitn(2, ' ')`
unfoldable pub sub_command : Text → Text × Text
sub_command arg = command_of (split_once b' ' arg) arg

-- the value behind the first token with the prefix, `key=`
unfoldable pub find_value : Text → List Text → Option Text
find_value prefix [] = none
find_value prefix (t ∷ ts) = or_else (strip_prefix prefix t) (find_value prefix ts)

unfoldable pub kv : Text → List Text → Option Text
unfolding find_value
kv key rest = find_value (key ++ str "=") rest

abbrev parsed : Option Text → Option ℕ
parsed none = none
parsed (some v) = parse_u32 v

unfoldable pub kv_u32 : Text → List Text → Option ℕ
unfolding kv
kv_u32 key rest = parsed (kv key rest)

abbrev is_one : Option Text → Bool
is_one none = false
is_one (some v) = v == str "1"

unfoldable pub kv_bool : Text → List Text → Bool
unfolding kv
kv_bool key rest = is_one (kv key rest)

-- pieces of the replies
abbrev pub ok_reply : Text
ok_reply = str "{\"ok\":1}"

abbrev pub quote : Text → Text
quote s = str "\"" ++ (s ++ str "\"")

abbrev pub quoted_or_null : Option Text → Text
quoted_or_null none = str "null"
quoted_or_null (some s) = quote s

abbrev pub text_list : List Text → Text
text_list l = str "[" ++ (join (str ",") (map quote l) ++ str "]")

abbrev pub number_list : List ℕ → Text
number_list l = str "[" ++ (join (str ",") (map show_nat l) ++ str "]")

-- the expected hash against the reported one: 1, 0, or -1 when there is nothing to compare
unfoldable pub hash_match : Option Text → Option Report → Text
hash_match none r = str "-1"
hash_match (some e) none = str "-1"
hash_match (some e) (some r) = if e == r.build_hash then str "1" else str "0"

abbrev pub dex_mount : Text
dex_mount = str "/system/etc/sundown/probe.dex"

abbrev flag_text : Bool → Text
flag_text true = str "1"
flag_text false = str "0"

module _ (system : System) (Stream : Type 0) where
  open system use {Sys, now}

  abbrev pub State : Type 0
  State = DaemonState Sys Stream

  -- `state.engine.lock().unwrap()` for one call
  abbrev pub on_engine : (St Sys → St Sys) → State → State
  on_engine f d = record d { engine = f d.engine }

  -- `events.push_system(EvLevel::Report, EvAction::System, ..)`
  abbrev pub report : Text → Text → State → State
  report reason msg d =
      on_engine
        (λ st. emit_system system EvLevel.report EvAction.system (some reason) (some msg) st) d

  -- DaemonState::uptime_secs
  unfoldable pub uptime_secs : State → ℕ
  uptime_secs d = (now d.engine.sys - d.started_at) / 1000000000

  -- DaemonState::bump_config_reloads, bump_connections
  unfoldable pub bump_config_reloads : State → State
  bump_config_reloads d = record d { config_reloads = d.config_reloads + 1 }

  unfoldable pub bump_connections : State → State
  bump_connections d = record d { connections_served = d.connections_served + 1 }

  -- DaemonState::record_probe
  unfoldable pub record_probe : Text → State → State
  record_probe hash d = record d {
    probe = some (record { build_hash = hash; reported_after_secs = uptime_secs d });
  }

  -- DaemonState::record_dex
  unfoldable pub record_dex : Text → State → State
  record_dex version d = record d {
    dex = some (record { build_hash = version; reported_after_secs = uptime_secs d });
  }

  -- DaemonState::record_bridge
  unfoldable pub record_bridge : Text → State → State
  record_bridge hash d = record d {
    hook_bridge = some (record { build_hash = hash; reported_after_secs = uptime_secs d });
  }

  -- DaemonState::record_focus
  unfoldable pub record_focus : Text → State → State
  record_focus pkg d = record d { last_focus_pkg = some pkg; focus_changes = d.focus_changes + 1 }

  -- DaemonState::bump_wakeup
  unfoldable pub bump_wakeup : State → State
  bump_wakeup d = record d { wakeup_events = d.wakeup_events + 1 }

  -- bridge_response
  unfoldable pub bridge_response : State → Text
  bridge_response d =
      str "{\"ok\":1,\"bridge_hash_match\":"
      ++ (hash_match d.expected_hook_hash d.hook_bridge ++ str "}")

  -- dex_hello_response; `dex_present` is whether the dex file is on its mount
  unfoldable pub dex_hello_response : (Sys → Bool) → State → Text
  dex_hello_response dex_present d =
      str "{\"ok\":1,\"dex_hash_match\":"
      ++ pieces (
          hash_match d.expected_dex_hash d.dex
          ∷ str ",\"expected_dex_hash\":"
          ∷ quoted_or_null d.expected_dex_hash
          ∷ str ",\"dex_path\":\""
          ∷ dex_mount
          ∷ str "\",\"dex_present\":"
          ∷ flag_text (dex_present d.engine.sys)
          ∷ str ",\"frozen_uids\":"
          ∷ number_list (sundown_frozen_uids system d.engine)
          ∷ str ",\"candidate_uids\":"
          ∷ number_list (sundown_candidate_uids system d.engine)
          ∷ str "}"
          ∷ [])

  -- probe_response
  unfoldable pub probe_response : (Sys → Bool) → State → Text
  probe_response dex_present d =
      str "{\"ok\":1,\"hash_match\":"
      ++ pieces (
          hash_match d.expected_probe_hash d.probe
          ∷ str ",\"expected_hash\":"
          ∷ quoted_or_null d.expected_probe_hash
          ∷ str ",\"dex_path\":\""
          ∷ dex_mount
          ∷ str "\",\"dex_present\":"
          ∷ flag_text (dex_present d.engine.sys)
          ∷ str "}"
          ∷ [])

  -- `hello-probe` of handle_conn
  unfoldable pub hello_probe : (Sys → Bool) → Text → State → Text × State
  hello_probe dex_present arg d =
      let d' = report (str "probe_handshake") (str "hash=" ++ arg) (record_probe arg d) in
      if is_empty arg
      then (str "{\"ok\":0,\"error\":\"hello-probe requires <build_hash>\"}", d)
      else (probe_response dex_present d', d')
