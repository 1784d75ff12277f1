-- ===== src/Subscribe.antt =====
-- The subscribers of daemon/src/state.rs: the filter of each, their registry, and the two
-- broadcasts; and the reader of the `subscribe` command in daemon/src/sock.rs. A connection is a
-- value of a parameter type, and a write to it an argument that says whether it succeeded.
pub mod Broadcast
pub mod Laws
pub mod Reader
use sundown.Base.{
  ℕ, ◌+◌, Bool, true, false, not, ◌&&◌, ◌||◌, Option, none, some, List, [], ◌∷◌, Text, str, ◌==◌,
  nat_eq, text_eq, any, is_empty, filterb, concat_elem, length, ltb, strip_prefix, strip_suffix,
  starts_with, split_once, segments, words, if◌then◌else◌,
}

pub record Subscription : Type 0 where
  pub kinds : List Text
  pub packages : List Text

-- Subscription::default
abbrev pub all_events : Subscription
all_events = record { kinds = []; packages = [] }

-- one pattern of the packages: exact, or a prefix in front of `.*`
abbrev fits : Option Text → Text → Text → Bool
fits none pattern p = p == pattern
fits (some prefix) pattern p = starts_with prefix p && ltb (length prefix) (length p)

unfoldable pub pattern_fits : Text → Text → Bool
pattern_fits p pattern = fits (strip_suffix (str ".*") pattern) pattern p

abbrev package_fits : List Text → Option Text → Bool
package_fits packages none = true
package_fits packages (some p) =
    is_empty packages || any (λ pattern. pattern_fits p pattern) packages

-- Subscription::matches
unfoldable pub wants : Subscription → Text → Option Text → Bool
unfolding pattern_fits
wants sub kind pkg =
    if not (is_empty sub.kinds) && not (any (λ k. k == kind) sub.kinds)
    then false
    else package_fits sub.packages pkg

-- Subscription::pkg_of: the first token with the prefix `pkg=`, if something stands behind it
abbrev unless_empty : Text → Option Text
unless_empty v = if is_empty v then none else some v

unfoldable pub first_pkg : List Text → Option Text
first_pkg [] = none
first_pkg (w ∷ ws) = elim (strip_prefix (str "pkg=") w) [
  | some v ↦ unless_empty v
  | none ↦ first_pkg ws
]

unfoldable pub pkg_of : Text → Option Text
unfolding first_pkg
pkg_of line = first_pkg (words line)

-- parse_subscription of sock.rs; the error is the token that is not `key=value`, or that none is
-- there
pub data SubscribeError : Type 0 where
  bad_token : Text → SubscribeError
  no_argument : SubscribeError

pub data SubscribeResult : Type 0 where
  accepted : Subscription → SubscribeResult
  rejected : SubscribeError → SubscribeResult

abbrev set_items : Text → List Text → Subscription → Subscription
set_items k items sub =
    if k == str "kinds"
    then record sub { kinds = items }
    else if k == str "packages"
    then record sub { packages = items }
    else sub

unfoldable pub read_tokens : List Text → Bool → Subscription → SubscribeResult
read_tokens [] seen sub = if seen then accepted sub else rejected no_argument
read_tokens (w ∷ ws) seen sub = elim (split_once 61 w) [
  | none ↦ rejected (bad_token w)
  | some kv ↦ read_tokens ws true (set_items kv.0 (segments 44 kv.1) sub)
]

unfoldable pub parse_subscription : Text → SubscribeResult
unfolding read_tokens
parse_subscription arg = read_tokens (words arg) false all_events

module _ (Stream : Type 0) where
  -- `dex_clients` and `next_dex_client_id`
  pub record Registry : Type 0 where
    pub clients : List (ℕ × Stream × Subscription)
    pub next_id : ℕ

  abbrev pub no_clients : Registry
  no_clients = record { clients = []; next_id = 0 }

  -- DaemonState::register_dex_client
  unfoldable pub register_dex_client : Stream → Registry → ℕ × Registry
  register_dex_client stream r =
      let id = r.next_id + 1 in
      (id, record { clients = concat_elem r.clients (id, stream, all_events); next_id = id })

  -- DaemonState::unregister_dex_client
  unfoldable pub unregister_dex_client : ℕ → Registry → Registry
  unregister_dex_client id r = record r { clients = filterb (λ c. not (c.0 == id)) r.clients }

  -- DaemonState::update_dex_subscription
  unfoldable pub set_first :
      ℕ → Subscription → List (ℕ × Stream × Subscription) → List (ℕ × Stream × Subscription)
  set_first id sub [] = []
  set_first id sub ((i, s, old) ∷ cs) =
      let rest = set_first id sub cs in if i == id then (i, s, sub) ∷ cs else (i, s, old) ∷ rest

  unfoldable pub update_dex_subscription : ℕ → Subscription → Registry → Bool × Registry
  unfolding set_first
  update_dex_subscription id sub r =
      if any (λ c. c.0 == id) r.clients
      then (true, record r { clients = set_first id sub r.clients })
      else (false, r)

  -- DaemonState::dex_subscription
  unfoldable pub find_client : ℕ → List (ℕ × Stream × Subscription) → Option Subscription
  find_client id [] = none
  find_client id ((i, s, sub) ∷ cs) = if i == id then some sub else find_client id cs

  unfoldable pub dex_subscription : ℕ → Registry → Option Subscription
  unfolding find_client
  dex_subscription id r = find_client id r.clients

  -- `retain_mut` of the two broadcasts: who is kept, and how many were told
  abbrev pub told :
      ℕ
      → Subscription
      → Bool × Stream
      → ℕ × List (ℕ × Stream × Subscription)
      → ℕ × List (ℕ × Stream × Subscription)
  told id sub (true, s) (n, cs) = (n + 1, (id, s, sub) ∷ cs)
  told id sub (false, s) (n, cs) = (n, cs)

  unfoldable pub broadcast_to :
      (Stream → Bool × Stream)
      → Text
      → Option Text
      → List (ℕ × Stream × Subscription)
      → ℕ × List (ℕ × Stream × Subscription)
  broadcast_to send kind pkg [] = (0, [])
  broadcast_to send kind pkg ((id, s, sub) ∷ cs) =
      let rest = broadcast_to send kind pkg cs in
      if not (wants sub kind pkg)
      then (rest.0, (id, s, sub) ∷ rest.1)
      else told id sub (send s) rest

  -- Result::and_then on what a write left
  abbrev pub and_then : Bool × Stream → (Stream → Bool × Stream) → Bool × Stream
  and_then (true, s) k = k s
  and_then (false, s) k = (false, s)

  module _ (write_all : Stream → Text → Bool × Stream) (flush : Stream → Bool × Stream) where
    abbrev pub send_line : Text → Stream → Bool × Stream
    send_line line s = and_then (write_all s line) flush

    -- DaemonState::broadcast_line
    unfoldable pub broadcast_line : Text → Text → Registry → ℕ × Registry
    unfolding broadcast_to
    broadcast_line kind line r =
        let out = broadcast_to (send_line line) kind (pkg_of line) r.clients in
        (out.0, record r { clients = out.1 })

    abbrev pub send_frame : Text → Text → Stream → Bool × Stream
    send_frame header_line payload s =
        and_then (and_then (write_all s header_line) (λ s'. write_all s' payload)) flush

    -- DaemonState::broadcast_dex
    unfoldable pub broadcast_dex : Text → Text → Registry → ℕ × Registry
    unfolding broadcast_to
    broadcast_dex header_line payload r =
        let out = broadcast_to (send_frame header_line payload) (str "dex-push") none r.clients in
        (out.0, record r { clients = out.1 })
