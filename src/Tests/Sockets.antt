-- ===== src/Tests/Sockets.antt =====
-- The theorems about the lines of the sockets, applied to the toy system.
use sundown.Base.{
  ℕ, zero, suc, from_utf8, trim, arith, ◌++◌, true, ◌≡◌, refl, ◌⊎◌, Option, none, some, List, [],
  ◌∷◌, Text, str,
}
use sundown.Engine.Run.{Reach, start}
use sundown.Engine.Startup.{startup}
use sundown.Sock.{DaemonState}
use sundown.Sock.Command.{dex_line}
use sundown.Sock.Dex.{
  Bytes, ReadResult, contents, extract_dex_version, push_dex, serve_dex_bytes, write_reply, u32_at,
  sha_at,
}
use sundown.Sock.Dex.Fuse.{IsSendable, refusal, push_dex_fused}
use sundown.Sock.Dex.Version.{IsShortSha, extract_dex_version_first}
use sundown.Sock.Errors.{Refused, sock-Refused}
use sundown.Sock.Manage.{handle_policy}
use sundown.Sock.Runs.{sock-Reach}
use sundown.Sock.Session.{hello_dex}
use sundown.Sock.Session.Laws.{hello_dex_lem}
use sundown.Sock.Status.{request_reload}
use sundown.Tests.{toy}
use sundown.Tests.Subscribers.{send_count, send_flush, two_clients}

abbrev served : DaemonState ℕ ℕ
served = record {
  started_at = 0;
  config_reloads = 0;
  connections_served = 1;
  probe = none;
  expected_probe_hash = none;
  dex = none;
  expected_dex_hash = some (str "a672eff");
  dex_clients = two_clients;
  hook_bridge = none;
  expected_hook_hash = none;
  last_focus_pkg = none;
  focus_changes = 0;
  wakeup_events = 0;
  engine = startup toy 9;
  dex_capability = none;
}

abbrev toy_pid_uid : ℕ → ℕ → Option ℕ
toy_pid_uid pid t = some 10002

abbrev served_lines : List Text
served_lines =
    str "event focus pkg=chat fg=1"
    ∷ str "subscribe kinds=frozen-sync"
    ∷ str "event wakeup pkg=game reason=fcm"
    ∷ str "event focus"
    ∷ []

abbrev no_file : ℕ → Option Text
no_file t = none

sock-Reach_example :
    Reach toy 9
      (hello_dex toy ℕ toy_pid_uid (λ t. true) (str "a672eff") 7 served_lines served).1.engine
    × Reach toy 9 (handle_policy toy (str "preset apply night") served.engine).1
    × Reach toy 9 (request_reload toy ℕ no_file no_file no_file served).engine
sock-Reach_example =
    sock-Reach toy ℕ toy_pid_uid (λ t. true) 9 no_file no_file no_file (str "a672eff") 7
      served_lines (str "preset apply night") served start

sock-Refused_example :
    Refused served (dex_line toy ℕ toy_pid_uid (λ t. true) 3 (str "event focus") served)
    × Refused served.engine (handle_policy toy (str "preset apply day") served.engine)
sock-Refused_example =
    sock-Refused toy ℕ toy_pid_uid (λ t. true) 3 (str "event focus") (str "preset apply day") served

abbrev zeros : ℕ → Bytes
zeros zero = []
zeros (suc n) = 0 ∷ zeros n

-- a file with two strings, the second of them a short hash
abbrev two_strings : Bytes
two_strings =
    str "dex\n"
    ++ (zeros 52
        ++ (2 ∷ 0 ∷ 0 ∷ 0 ∷ 112 ∷ 0 ∷ 0 ∷ 0 ∷ zeros 48
            ++ (120 ∷ 0 ∷ 0 ∷ 0 ∷ 123 ∷ 0 ∷ 0 ∷ 0 ∷ 1 ∷ 77 ∷ 0 ∷ 7 ∷ str "a672eff\0")))

extract_dex_version_first_example :
    (extract_dex_version two_strings ≡ some (str "a672eff")) × IsShortSha (str "a672eff")
unfolding u32_at sha_at from_utf8 trim
extract_dex_version_first_example =
    extract_dex_version_first 2 112 1 (str "a672eff") two_strings refl refl refl refl (omega arith)
      (omega arith) (refl, tt) refl

abbrev read_two : Text → ℕ → ReadResult
read_two path t = contents two_strings

push_dex_fused_example :
    (((push_dex toy ℕ send_count send_flush read_two [] served).1 ≡ served)
      ⊎ IsSendable (some (str "a672eff")) (contents two_strings))
    × ((serve_dex_bytes toy ℕ send_count send_flush read_two 4 served
          ≡ write_reply toy ℕ send_count send_flush read_two
              (refusal (some (str "a672eff")) (contents two_strings))
              4)
        ⊎ IsSendable (some (str "a672eff")) (contents two_strings))
push_dex_fused_example = push_dex_fused toy ℕ send_count send_flush read_two [] 4 served

hello_dex_lem_example :
    (hello_dex toy ℕ toy_pid_uid
      (λ t. true)
      (str "a672eff")
      7
      served_lines
      served).1.dex_clients.clients
    ≡ two_clients.clients
hello_dex_lem_example =
    hello_dex_lem toy ℕ toy_pid_uid (λ t. true) (str "a672eff") 7 served_lines served
      (omega arith, (omega arith, omega arith))
