-- ===== src/Sock/Session/Laws.antt =====
-- A subscribed connection touches its own entry of the registry and no other.
use sundown.Base.{
  ℕ, ◌≤◌, ◌<◌, ◌==◌, nat_eq, nat_beq_iff, Bool, true, false, not, ◌||◌, Bool-cases, inl, inr, ◌≡◌,
  refl, ap, ◌∙◌, arith, Option, List, [], ◌∷◌, ◌++◌, Text, str, text_eq, is_empty, words, any,
  filterb, concat_elem, if◌then◌else◌,
}
use sundown.Engine.System.{System}
use sundown.Sock.{State, report, split_command, record_dex, record_bridge}
use sundown.Sock.Command.{
  DexCommand, dex_command, dex_dispatch, dex_line, dex_subscription_loop, handle_subscribe,
  subscribe_parsed, handle_capability_probe, dex_again, bridge_report,
}
use sundown.Sock.Event.{handle_event}
use sundown.Sock.Session.Keeps.{event_words-Keeps}
use sundown.Sock.Session.{subscribed, hello_dex}
use sundown.Subscribe.{
  Registry, Subscription, SubscribeResult, parse_subscription, set_first, all_events,
  update_dex_subscription, register_dex_client, unregister_dex_client,
}
use sundown.Subscribe.Laws.{IsRegistry, IsIds}

module _ (Stream : Type 0) where
  abbrev Client : Type 0
  Client = ℕ × Stream × Subscription

  -- the entries of the others
  abbrev pub other_clients : ℕ → List Client → List Client
  other_clients id l = filterb (λ c. not (c.0 == id)) l

  other_clients-set_first :
      (id : ℕ) (sub : Subscription) (l : List Client)
      → other_clients id (set_first Stream id sub l) ≡ other_clients id l
  unfolding set_first
  other_clients-set_first id sub [] = refl
  other_clients-set_first id sub ((i, s, old) ∷ cs) = elim (Bool-cases (i == id)) [
    | inl b ↦ rw b (rw b refl)
    | inr b ↦ rw b (rw b (ap (λ t. (i, s, old) ∷ t) (other_clients-set_first id sub cs)))
  ]

  other_clients-update :
      (id : ℕ) (sub : Subscription) (r : Registry Stream)
      → other_clients id (update_dex_subscription Stream id sub r).1.clients
        ≡ other_clients id r.clients
  unfolding update_dex_subscription
  other_clients-update id sub r = elim (Bool-cases (any (λ c. c.0 == id) r.clients)) [
    | inl b ↦ rw b (other_clients-set_first id sub r.clients)
    | inr b ↦ rw b refl
  ]

  IsIds-le : (k n : ℕ) (l : List Client) → IsIds Stream k n l → k ≤ n
  IsIds-le k n [] h = h
  IsIds-le k n (c ∷ cs) h = omega (arith, h.0, IsIds-le c.0 n cs h.1)

  differs : (j n id : ℕ) → j ≤ n → n < id → (j == id) ≡ false
  differs j n id h q = ground (arith, h, q)

  -- a client with the next id, added and taken away
  others-concat :
      (k n id : ℕ) (s : Stream) (sub : Subscription) (l : List Client)
      → IsIds Stream k n l
      → n < id
      → other_clients id (concat_elem l (id, s, sub)) ≡ l
  others-concat k n id s sub [] h q = rw ((nat_beq_iff id id).1 refl) refl
  others-concat k n id s sub (c ∷ cs) h q =
      rw (differs c.0 n id (IsIds-le c.0 n cs h.1) q)
        (ap (λ t. c ∷ t) (others-concat c.0 n id s sub cs h.1 q))

module _ (system : System) (Stream : Type 0) (pid_uid : ℕ → system.Sys → Option ℕ)
    (dex_present : system.Sys → Bool) where
  -- the entries of the others are kept
  abbrev Owns : ℕ → State system Stream → Text × State system Stream → Type 0
  Owns id d r =
      other_clients Stream id r.1.dex_clients.clients
      ≡ other_clients Stream id d.dex_clients.clients

  if-Owns :
      (id : ℕ) (d : State system Stream) (b : Bool) (x y : Text × State system Stream)
      → Owns id d x
      → Owns id d y
      → Owns id d (if b then x else y)
  if-Owns id d true x y h k = h
  if-Owns id d false x y h k = k

  subscribe_parsed-Owns :
      (id : ℕ) (r : SubscribeResult) (d : State system Stream)
      → Owns id d (subscribe_parsed system Stream id r d)
  unfolding subscribe_parsed
  subscribe_parsed-Owns id (SubscribeResult.rejected e) d = refl
  subscribe_parsed-Owns id (SubscribeResult.accepted sub) d =
      other_clients-update Stream id sub d.dex_clients

  handle_subscribe-Owns :
      (id : ℕ) (arg : Text) (d : State system Stream)
      → Owns id d (handle_subscribe system Stream id arg d)
  unfolding handle_subscribe
  handle_subscribe-Owns id arg d =
      if-Owns id d (is_empty arg || arg == str "clear") _ _
        (other_clients-update Stream id all_events d.dex_clients)
        (if-Owns id d (arg == str "query") _ _ refl
          (subscribe_parsed-Owns id (parse_subscription arg) d))

  dex_dispatch-Owns :
      (id : ℕ) (c : DexCommand) (cmd arg : Text) (d : State system Stream)
      → Owns id d (dex_dispatch system Stream pid_uid dex_present id c cmd arg d)
  unfolding dex_dispatch handle_capability_probe dex_again bridge_report handle_event record_dex
      record_bridge
  dex_dispatch-Owns id DexCommand.ping cmd arg d = refl
  dex_dispatch-Owns id DexCommand.hello_dex cmd arg d = if-Owns id d (is_empty arg) _ _ refl refl
  dex_dispatch-Owns id DexCommand.subscribe cmd arg d = handle_subscribe-Owns id arg d
  dex_dispatch-Owns id DexCommand.capability_probe cmd arg d =
      if-Owns id d (is_empty arg) _ _ refl refl
  dex_dispatch-Owns id DexCommand.report_bridge cmd arg d =
      if-Owns id d (is_empty arg) _ _ refl refl
  dex_dispatch-Owns id DexCommand.event cmd arg d =
      ap (λ r. other_clients Stream id r.clients)
        (event_words-Keeps system Stream pid_uid dex_present (words arg) d)
  dex_dispatch-Owns id DexCommand.unsupported cmd arg d = refl

  loop-Owns :
      (id : ℕ) (ls : List Text) (d : State system Stream)
      → other_clients Stream id
          (dex_subscription_loop system Stream pid_uid dex_present id ls d).1.dex_clients.clients
        ≡ other_clients Stream id d.dex_clients.clients
  unfolding dex_subscription_loop dex_line
  loop-Owns id [] d = refl
  loop-Owns id (line ∷ ls) d =
      let c = split_command line in
      loop-Owns id ls (dex_line system Stream pid_uid dex_present id line d).1
      ∙ dex_dispatch-Owns id (dex_command c.0) c.0 c.1 d

  subscribed_lem :
      (stream : Stream) (ls : List Text) (d : State system Stream)
      → IsRegistry Stream d.dex_clients
      → (subscribed system Stream pid_uid dex_present stream ls d).1.dex_clients.clients
        ≡ d.dex_clients.clients
  unfolding subscribed register_dex_client unregister_dex_client
  subscribed_lem stream ls d h =
      let r = register_dex_client Stream stream d.dex_clients in
      loop-Owns r.0 ls (record d { dex_clients = r.1 })
      ∙ others-concat Stream 0 d.dex_clients.next_id r.0 stream all_events d.dex_clients.clients h
          (omega arith)

  -- Where the ids of the registered clients increase up to the last one given, the connection of
  -- a hello-dex, whatever its lines, leaves exactly the clients and filters that were registered
  -- before it.
  pub hello_dex_lem :
      (arg : Text) (stream : Stream) (ls : List Text) (d : State system Stream)
      → IsRegistry Stream d.dex_clients
      → (hello_dex system Stream pid_uid dex_present arg stream ls d).1.dex_clients.clients
        ≡ d.dex_clients.clients
  unfolding hello_dex record_dex
  hello_dex_lem arg stream ls d h = elim (Bool-cases (is_empty arg)) [
    | inl b ↦ rw b refl
    | inr b ↦
        let d' =
          report system Stream (str "dex_handshake") (str "version=" ++ arg)
            (record_dex system Stream arg d) in
        rw b (subscribed_lem stream ls d' h)
  ]
