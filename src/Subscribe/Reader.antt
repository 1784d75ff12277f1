-- ===== src/Subscribe/Reader.antt =====
-- What `parse_subscription` of daemon/src/sock.rs accepts, and what it reports.
use sundown.Base.{
  ℕ, Bool, true, false, ◌||◌, not, ◌≡◌, refl, arith, Option, none, some, List, [], ◌∷◌, Text, ◌==◌,
  nat_eq, is_empty, words, contains, split_once, onto_before, is_some, segments, Bool-cases, inl,
  inr, if◌then◌else◌,
}
use sundown.Subscribe.{
  Subscription, SubscribeResult, SubscribeError, all_events, parse_subscription, read_tokens,
  set_items,
}

-- the first token with no `=` in it
abbrev pub first_bare : List Text → Option Text
first_bare [] = none
first_bare (w ∷ ws) = if contains 61 w then first_bare ws else some w

is_some-onto_before : (d : ℕ) (o : Option (Text × Text)) → is_some (onto_before d o) ≡ is_some o
is_some-onto_before d none = refl
is_some-onto_before d (some (a, b)) = refl

split_once-contains : (c : ℕ) (s : Text) → contains c s ≡ is_some (split_once c s)
unfolding contains split_once
split_once-contains c [] = refl
split_once-contains c (d ∷ s) = elim (Bool-cases (d == c)) [
  | inl b ↦ rw (contains, split_once, b) refl
  | inr b ↦
      rw (contains, split_once, b, is_some-onto_before d (split_once c s)) (split_once-contains c s)
]

-- a result, by the tokens and whether one was read before them
abbrev pub ReadOutcome : List Text → Bool → SubscribeResult → Type 0
ReadOutcome ws seen (SubscribeResult.accepted sub) =
    (first_bare ws ≡ none) × (seen || not (is_empty ws) ≡ true)
ReadOutcome ws seen (SubscribeResult.rejected (SubscribeError.bad_token w)) = first_bare ws ≡ some w
ReadOutcome ws seen (SubscribeResult.rejected SubscribeError.no_argument) =
    (is_empty ws ≡ true) × (seen ≡ false)

-- a token with no `=` ends the reading with its error
read_bare :
    (w : Text) (ws : List Text) (seen : Bool) (sub : Subscription)
    → contains 61 w ≡ false
    → ReadOutcome (w ∷ ws) seen (SubscribeResult.rejected (SubscribeError.bad_token w))
read_bare w ws seen sub h = rw h refl

-- behind a token with `=`, the outcome is that of the others
read_after :
    (w : Text) (ws : List Text) (seen : Bool) (r : SubscribeResult)
    → contains 61 w ≡ true
    → ReadOutcome ws true r
    → ReadOutcome (w ∷ ws) seen r
read_after w ws seen (SubscribeResult.accepted sub) h o = rw h (o.0, ground arith)
read_after w ws seen (SubscribeResult.rejected (SubscribeError.bad_token v)) h o = rw h o
read_after w ws seen (SubscribeResult.rejected SubscribeError.no_argument) h o = ground (arith, o)

read_empty : (seen : Bool) (sub : Subscription) → ReadOutcome [] seen (read_tokens [] seen sub)
unfolding read_tokens
read_empty true sub = (refl, refl)
read_empty false sub = (refl, refl)

read_tokens_lem :
    (ws : List Text) (seen : Bool) (sub : Subscription)
    → ReadOutcome ws seen (read_tokens ws seen sub)
unfolding read_tokens
read_tokens_lem [] seen sub = read_empty seen sub
read_tokens_lem (w ∷ ws) seen sub =
    by_split (λ sub'. read_tokens_lem ws true sub') (split_once 61 w) refl
  where
    by_split :
        ((sub' : Subscription) → ReadOutcome ws true (read_tokens ws true sub'))
        → (o : Option (Text × Text)) → split_once 61 w ≡ o
        → ReadOutcome (w ∷ ws) seen (elim o [
          | none ↦ SubscribeResult.rejected (SubscribeError.bad_token w)
          | some kv ↦ read_tokens ws true (set_items kv.0 (segments 44 kv.1) sub)
        ])
    by_split below none e = read_bare w ws seen sub (rw (split_once-contains 61 w, e) refl)
    by_split below (some kv) e =
        let sub' = set_items kv.0 (segments 44 kv.1) sub in
        read_after w ws seen (read_tokens ws true sub') (rw (split_once-contains 61 w, e) refl)
          (below sub')

-- A subscription is accepted only where there is a token and each has an equals sign; the token
-- in a complaint is the first without one, and the complaint that there is none is made only of
-- an argument of blanks.
pub parse_subscription_lem : (arg : Text) → ReadOutcome (words arg) false (parse_subscription arg)
unfolding parse_subscription
parse_subscription_lem arg = read_tokens_lem (words arg) false all_events
