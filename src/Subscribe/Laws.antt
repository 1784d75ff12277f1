-- ===== src/Subscribe/Laws.antt =====
-- The registry of subscribers: its ids, and what an update changes.
use sundown.Base.{
  ℕ, ◌+◌, ◌≤◌, ◌<◌, Bool, true, false, not, ◌≡◌, refl, arith, Option, none, some, List, [], ◌∷◌,
  ◌++◌, Text, str, ◌==◌, nat_eq, text_eq, nat_beq_iff, any, filterb, concat_elem, length-append,
  strip_suffix-append, starts_with-append, Bool-cases, inl, inr, if◌then◌else◌,
}
use sundown.Subscribe.{
  Subscription, Registry, all_events, pattern_fits, wants, pkg_of, register_dex_client,
  unregister_dex_client, update_dex_subscription, set_first, dex_subscription, find_client, told,
  send_line, send_frame, broadcast_to, broadcast_line, broadcast_dex,
}

-- The wildcard prefix.* matches every name that is longer than the prefix and starts with it,
-- whether or not a dot follows the prefix.
pub pattern_fits-wildcard :
    (prefix : Text) (c : ℕ) (s : Text)
    → pattern_fits (prefix ++ (c ∷ s)) (prefix ++ str ".*") ≡ true
unfolding pattern_fits
pattern_fits-wildcard prefix c s =
    rw (strip_suffix-append (str ".*") prefix, starts_with-append prefix (c ∷ s))
      (ground (arith, length-append prefix (c ∷ s)))

module _ (Stream : Type 0) where
  abbrev Client : Type 0
  Client = ℕ × Stream × Subscription

  -- ids that increase, above `k` and up to `n`
  abbrev pub IsIds : ℕ → ℕ → List Client → Type 0
  IsIds k n [] = k ≤ n
  IsIds k n (c ∷ cs) = (k < c.0) × IsIds c.0 n cs

  -- the ids of the clients increase, and none is above the last that was given
  abbrev pub IsRegistry : Registry Stream → Type 0
  IsRegistry r = IsIds 0 r.next_id r.clients

  IsIds-lower : (j k n : ℕ) (l : List Client) → j ≤ k → IsIds k n l → IsIds j n l
  IsIds-lower j k n [] h i = omega (arith, h, i)
  IsIds-lower j k n (c ∷ cs) h i = (omega (arith, h, i.0), i.1)

  IsIds-concat :
      (k n : ℕ) (s : Stream) (sub : Subscription) (l : List Client)
      → IsIds k n l
      → IsIds k (n + 1) (concat_elem l (n + 1, s, sub))
  IsIds-concat k n s sub [] i = (omega (arith, i), omega arith)
  IsIds-concat k n s sub (c ∷ cs) i = (i.0, IsIds-concat c.0 n s sub cs i.1)

  IsIds-filterb :
      (p : Client → Bool) (k n : ℕ) (l : List Client) → IsIds k n l → IsIds k n (filterb p l)
  IsIds-filterb p k n [] i = i
  IsIds-filterb p k n (c ∷ cs) i = elim (Bool-cases (p c)) [
    | inl b ↦ rw b (i.0, IsIds-filterb p c.0 n cs i.1)
    | inr b ↦ rw b (IsIds-filterb p k n cs (IsIds-lower k c.0 n cs (omega (arith, i.0)) i.1))
  ]

  IsIds-set_first :
      (id : ℕ) (sub : Subscription) (k n : ℕ) (l : List Client)
      → IsIds k n l
      → IsIds k n (set_first Stream id sub l)
  unfolding set_first
  IsIds-set_first id sub k n [] i = i
  IsIds-set_first id sub k n ((j, s, old) ∷ cs) i = elim (Bool-cases (j == id)) [
    | inl b ↦ rw b i
    | inr b ↦ rw b (i.0, IsIds-set_first id sub j n cs i.1)
  ]

  -- The result of each write does not matter: who is kept is a part of the clients.
  IsIds-told :
      (id : ℕ) (sub : Subscription) (r : Bool × Stream) (k n : ℕ) (out : ℕ × List Client)
      → k < id
      → IsIds id n out.1
      → IsIds k n (told Stream id sub r out).1
  IsIds-told id sub (true, s) k n (m, cs) h i = (h, i)
  IsIds-told id sub (false, s) k n (m, cs) h i = IsIds-lower k id n cs (omega (arith, h)) i

  module _ (send : Stream → Bool × Stream) where
    IsIds-broadcast_to :
        (kind : Text) (pkg : Option Text) (k n : ℕ) (l : List Client)
        → IsIds k n l
        → IsIds k n (broadcast_to Stream send kind pkg l).1
    unfolding broadcast_to
    IsIds-broadcast_to kind pkg k n [] i = i
    IsIds-broadcast_to kind pkg k n ((id, s, sub) ∷ cs) i = elim (Bool-cases (wants sub kind pkg)) [
      | inl b ↦ rw b (
          IsIds-told id sub (send s) k n (broadcast_to Stream send kind pkg cs) i.0
            (IsIds-broadcast_to kind pkg id n cs i.1))
      | inr b ↦ rw b (i.0, IsIds-broadcast_to kind pkg id n cs i.1)
    ]

  module _ (write_all : Stream → Text → Bool × Stream) (flush : Stream → Bool × Stream) where
    -- Each operation of the registry of subscribers keeps the ids of its clients increasing and
    -- none above the last id given.
    pub registry-IsRegistry :
        (r : Registry Stream) (stream : Stream) (id : ℕ) (sub : Subscription) (kind line : Text)
        (payload : Text)
        → IsRegistry r
        → IsRegistry (register_dex_client Stream stream r).1
          × IsRegistry (unregister_dex_client Stream id r)
          × IsRegistry (update_dex_subscription Stream id sub r).1
          × IsRegistry (broadcast_line Stream write_all flush kind line r).1
          × IsRegistry (broadcast_dex Stream write_all flush line payload r).1
    unfolding register_dex_client unregister_dex_client update_dex_subscription broadcast_line
        broadcast_dex
    registry-IsRegistry r stream id sub kind line payload i = (
      IsIds-concat 0 r.next_id stream all_events r.clients i,
      IsIds-filterb (λ c. not (c.0 == id)) 0 r.next_id r.clients i,
      elim (Bool-cases (any (λ c. c.0 == id) r.clients)) [
        | inl b ↦ rw b (IsIds-set_first id sub 0 r.next_id r.clients i)
        | inr b ↦ rw b i
      ],
      IsIds-broadcast_to (send_line Stream write_all flush line) kind (pkg_of line) 0 r.next_id
          r.clients i,
      IsIds-broadcast_to (send_frame Stream write_all flush line payload) (str "dex-push") none 0
          r.next_id r.clients i,
    )

  find_client-set_first :
      (id j : ℕ) (sub : Subscription) (l : List Client)
      → any (λ c. c.0 == id) l ≡ true
      → find_client Stream j (set_first Stream id sub l)
        ≡ (if id == j then some sub else find_client Stream j l)
  unfolding find_client set_first
  find_client-set_first id j sub [] h = ground (arith, h)
  find_client-set_first id j sub ((i, s, old) ∷ cs) h =
      ground (arith, find_client-set_first id j sub cs, nat_beq_iff i id, nat_beq_iff i j)

  -- the filter of `j` after an update of `id`, by the result of the update
  abbrev pub UpdateOutcome :
      Bool → ℕ → ℕ → Subscription → Registry Stream → Registry Stream → Type 0
  UpdateOutcome true id j sub r r' =
      dex_subscription Stream j r' ≡ (if id == j then some sub else dex_subscription Stream j r)
  UpdateOutcome false id j sub r r' = r' ≡ r

  -- A filter whose update is reported as done is read back and no other filter changes; an update
  -- that is not done leaves the registry as it was.
  pub update_dex_subscription_lem :
      (id j : ℕ) (sub : Subscription) (r : Registry Stream)
      → let out = update_dex_subscription Stream id sub r in UpdateOutcome out.0 id j sub r out.1
  unfolding update_dex_subscription dex_subscription
  update_dex_subscription_lem id j sub r = elim (Bool-cases (any (λ c. c.0 == id) r.clients)) [
    | inl b ↦ rw b (find_client-set_first id j sub r.clients b)
    | inr b ↦ rw b refl
  ]
