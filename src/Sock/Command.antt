-- ===== src/Sock/Command.antt =====
-- The lines of a subscribed connection in daemon/src/sock.rs: `dex_subscription_loop` with
-- `handle_subscribe` and `handle_capability_probe`.
use sundown.Base.{
  ℕ, Bool, true, false, ◌||◌, Option, none, some, List, [], ◌∷◌, ◌++◌, Text, str, ◌==◌, text_eq,
  is_empty, if◌then◌else◌,
}
use sundown.Engine.System.{System}
use sundown.Sock.{
  State, report, text_list, split_command, record_dex, record_bridge, bridge_response,
  dex_hello_response,
}
use sundown.Sock.Event.{handle_event}
use sundown.Subscribe.{
  Registry, Subscription, SubscribeResult, SubscribeError, all_events, parse_subscription,
  update_dex_subscription, dex_subscription,
}

-- the command of a line
pub data DexCommand : Type 0 where
  ping : DexCommand
  hello_dex : DexCommand
  subscribe : DexCommand
  capability_probe : DexCommand
  report_bridge : DexCommand
  event : DexCommand
  unsupported : DexCommand

unfoldable pub dex_command : Text → DexCommand
dex_command cmd =
    if cmd == str "ping"
    then ping
    else if cmd == str "hello-dex"
    then hello_dex
    else if cmd == str "subscribe"
    then subscribe
    else if cmd == str "capability-probe"
    then capability_probe
    else if cmd == str "report-bridge"
    then report_bridge
    else if cmd == str "event"
    then event
    else unsupported

-- the messages of parse_subscription
abbrev error_text : SubscribeError → Text
error_text (SubscribeError.bad_token w) = str "无法识别参数: " ++ w
error_text SubscribeError.no_argument = str "缺少 kinds=/packages= 参数"

module _ (system : System) (Stream : Type 0) where
  abbrev with_clients : Registry Stream → State system Stream → State system Stream
  with_clients r d = record d { dex_clients = r }

  -- `subscribe query`
  unfoldable pub query_reply : Option Subscription → Text
  query_reply none = str "{\"ok\":0,\"error\":\"subscription not found\"}"
  query_reply (some s) =
      str "{\"ok\":1,\"kinds\":"
      ++ (text_list s.kinds ++ (str ",\"packages\":" ++ (text_list s.packages ++ str "}")))

  -- `subscribe kinds=.. packages=..`
  abbrev updated_reply : Bool → Text
  updated_reply true = str "{\"ok\":1,\"subscription\":\"updated\"}"
  updated_reply false = str "{\"ok\":0,\"error\":\"subscription not found\"}"

  unfoldable pub subscribe_parsed :
      ℕ → SubscribeResult → State system Stream → Text × State system Stream
  subscribe_parsed id (SubscribeResult.rejected e) d =
      (str "{\"ok\":0,\"error\":\"subscribe: " ++ (error_text e ++ str "\"}"), d)
  subscribe_parsed id (SubscribeResult.accepted sub) d =
      let r = update_dex_subscription Stream id sub d.dex_clients in
      (updated_reply r.0, with_clients r.1 d)

  -- handle_subscribe
  unfoldable pub handle_subscribe : ℕ → Text → State system Stream → Text × State system Stream
  unfolding query_reply subscribe_parsed
  handle_subscribe id arg d =
      if is_empty arg || arg == str "clear"
      then (
        str "{\"ok\":1,\"subscription\":\"all\"}",
        with_clients (update_dex_subscription Stream id all_events d.dex_clients).1 d,
      )
      else if arg == str "query"
      then (query_reply (dex_subscription Stream id d.dex_clients), d)
      else subscribe_parsed id (parse_subscription arg) d

  -- handle_capability_probe
  unfoldable pub handle_capability_probe : Text → State system Stream → Text × State system Stream
  handle_capability_probe arg d =
      if is_empty arg
      then (str "{\"ok\":0,\"error\":\"capability-probe requires <json>\"}", d)
      else (
        str "{\"ok\":1,\"stored\":1}",
        report system Stream (str "capability_probe_dex") (str "rom_classes_probed")
            (record d { dex_capability = some arg }),
      )

  module _ (pid_uid : ℕ → system.Sys → Option ℕ) (dex_present : system.Sys → Bool) where
    -- `hello-dex` on a connection that is subscribed already
    unfoldable pub dex_again : Text → State system Stream → Text × State system Stream
    dex_again arg d =
        let d' =
          report system Stream (str "dex_reregister") (str "version=" ++ arg)
            (record_dex system Stream arg d) in
        if is_empty arg
        then (str "{\"ok\":0,\"error\":\"hello-dex requires <build_version>\"}", d)
        else (dex_hello_response system Stream dex_present d', d')

    -- `report-bridge`
    unfoldable pub bridge_report : Text → State system Stream → Text × State system Stream
    bridge_report arg d =
        let d' =
          report system Stream (str "bridge_report") (str "hash=" ++ arg)
            (record_bridge system Stream arg d) in
        if is_empty arg
        then (str "{\"ok\":0,\"error\":\"report-bridge requires <build_hash>\"}", d)
        else (bridge_response system Stream d', d')

    unfoldable pub dex_dispatch :
        ℕ → DexCommand → Text → Text → State system Stream → Text × State system Stream
    dex_dispatch id ping cmd arg d = (str "{\"ok\":1,\"pong\":1}", d)
    dex_dispatch id hello_dex cmd arg d = dex_again arg d
    dex_dispatch id subscribe cmd arg d = handle_subscribe id arg d
    dex_dispatch id capability_probe cmd arg d = handle_capability_probe arg d
    dex_dispatch id report_bridge cmd arg d = bridge_report arg d
    dex_dispatch id event cmd arg d = handle_event system Stream pid_uid arg d
    dex_dispatch id unsupported cmd arg d = (
      str "{\"ok\":0,\"error\":\"subscription connection: unsupported command: "
          ++ (cmd ++ str "\"}"),
      d,
    )

    -- one round of the loop, on a line that was read
    unfoldable pub dex_line : ℕ → Text → State system Stream → Text × State system Stream
    unfolding dex_dispatch dex_command split_command
    dex_line id line d = let c = split_command line in dex_dispatch id (dex_command c.0) c.0 c.1 d

    -- dex_subscription_loop on the lines up to the end of the input, with the replies written
    unfoldable pub dex_subscription_loop :
        ℕ → List Text → State system Stream → List Text × State system Stream
    dex_subscription_loop id [] d = ([], d)
    dex_subscription_loop id (line ∷ ls) d =
        let r = dex_line id line d in
        let rest = dex_subscription_loop id ls r.1 in (r.0 ∷ rest.0, rest.1)
