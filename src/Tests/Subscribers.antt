-- ===== src/Tests/Subscribers.antt =====
-- The theorems about the subscribers, applied to a registry of two. A connection is the number of
-- lines it still takes.
use sundown.Base.{
  ℕ, ◌-◌, Bool, true, some, ◌≡◌, arith, [], ◌∷◌, Text, str, ltb, nat_eq, text_eq, text_beq, words,
  strip_prefix,
}
use sundown.Subscribe.{
  Subscription, Registry, all_events, register_dex_client, unregister_dex_client,
  update_dex_subscription, dex_subscription, broadcast_line, broadcast_dex, pkg_of, wants,
  first_pkg, pattern_fits,
}
use sundown.Subscribe.Broadcast.{broadcast_line_lem}
use sundown.Subscribe.Laws.{IsRegistry, registry-IsRegistry, update_dex_subscription_lem}

abbrev frozen_only : Subscription
frozen_only = record { kinds = str "frozen-sync" ∷ []; packages = [] }

abbrev pub two_clients : Registry ℕ
two_clients = record { clients = (1, 0, all_events) ∷ (3, 5, frozen_only) ∷ []; next_id = 4 }

abbrev pub send_count : ℕ → Text → Bool × ℕ
send_count n line = (ltb 0 n, n - 1)

abbrev pub send_flush : ℕ → Bool × ℕ
send_flush n = (true, n)

abbrev sync_line : Text
sync_line = str "frozen-sync pkg=chat"

registry-IsRegistry_example :
    IsRegistry ℕ (register_dex_client ℕ 9 two_clients).1
    × IsRegistry ℕ (unregister_dex_client ℕ 3 two_clients)
    × IsRegistry ℕ (update_dex_subscription ℕ 3 all_events two_clients).1
    × IsRegistry ℕ
        (broadcast_line ℕ send_count send_flush (str "frozen-sync") sync_line two_clients).1
    × IsRegistry ℕ (broadcast_dex ℕ send_count send_flush sync_line (str "dex") two_clients).1
registry-IsRegistry_example =
    registry-IsRegistry ℕ send_count send_flush two_clients 9 3 all_events (str "frozen-sync")
      sync_line (str "dex") (omega arith, (omega arith, omega arith))

broadcast_line_lem_example :
    let out = broadcast_line ℕ send_count send_flush (str "frozen-sync") sync_line two_clients in
    (out.1.next_id ≡ 4) × ((out.0 ≡ 1) × (out.1.clients ≡ (3, 4, frozen_only) ∷ []))
unfolding wants pkg_of first_pkg pattern_fits text_beq words strip_prefix
broadcast_line_lem_example =
    broadcast_line_lem ℕ send_count send_flush (str "frozen-sync") sync_line two_clients

update_dex_subscription_lem_example :
    dex_subscription ℕ 3 (update_dex_subscription ℕ 3 all_events two_clients).1 ≡ some all_events
unfolding update_dex_subscription
update_dex_subscription_lem_example = update_dex_subscription_lem ℕ 3 3 all_events two_clients
