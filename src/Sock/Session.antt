-- ===== src/Sock/Session.antt =====
-- The connection of a `hello-dex` in `handle_conn` of daemon/src/sock.rs, from its registration to
-- the end of its input. Its replies are written; where a write fails, the input ends there.
pub mod Keeps
pub mod Laws
use sundown.Base.{
  ℕ, Bool, Option, none, some, List, [], ◌∷◌, ◌++◌, Text, str, is_empty, if◌then◌else◌,
}
use sundown.Engine.System.{System}
use sundown.Sock.{State, report, record_dex, dex_hello_response}
use sundown.Sock.Command.{dex_subscription_loop}
use sundown.Subscribe.{Registry, register_dex_client, unregister_dex_client}

module _ (system : System) (Stream : Type 0) (pid_uid : ℕ → system.Sys → Option ℕ)
    (dex_present : system.Sys → Bool) where
  -- register, the loop, unregister
  unfoldable pub subscribed :
      Stream → List Text → State system Stream → List Text × State system Stream
  subscribed stream ls d =
      let r = register_dex_client Stream stream d.dex_clients in
      let out =
        dex_subscription_loop system Stream pid_uid dex_present r.0 ls
          (record d { dex_clients = r.1 }) in
      (out.0, record out.1 { dex_clients = unregister_dex_client Stream r.0 out.1.dex_clients })

  -- the replies that are written, and the state behind
  unfoldable pub hello_dex :
      Text → Stream → List Text → State system Stream → List Text × State system Stream
  unfolding subscribed
  hello_dex arg stream ls d =
      let d' =
        report system Stream (str "dex_handshake") (str "version=" ++ arg)
          (record_dex system Stream arg d) in
      let out = subscribed stream ls d' in
      if is_empty arg
      then (str "{\"ok\":0,\"error\":\"hello-dex requires <build_version>\"}" ∷ [], d)
      else (dex_hello_response system Stream dex_present d' ∷ out.0, out.1)
