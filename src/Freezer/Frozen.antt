-- ===== src/Freezer/Frozen.antt =====
-- The scan for all frozen uids against the question for one.
use sundown.Base.{
  ℕ, ◌^◌, ◌<◌, ◌≡◌, refl, sym, ap, ◌∙◌, arith, Bool, true, false, ◌||◌, ◌&&◌, Option, none, some,
  List, [], ◌∷◌, Text, ◌==◌, nat_eq, text_eq, text_beq_iff, nat_beq_iff, any, All,
  parse_u32-show_nat, strip_prefix, Bool-cases, inl, inr, if◌then◌else◌,
}
use sundown.Freezer.{
  Os, apps_dir, uid_dir, uid_name, uid_entry, onto_parsed, or_empty, has_frozen, frozen_in,
  frozen_uids, uid_has_frozen_procs, under,
}

-- a directory with the number of a uid is named by it, with no plus sign or leading zero
abbrev pub IsCanonical : Text → Type 0
IsCanonical name = (u : ℕ) → uid_entry name ≡ some u → name ≡ uid_name u

uid_entry-uid_name : (uid : ℕ) → uid < 2 ^ 32 → uid_entry (uid_name uid) ≡ some uid
unfolding uid_entry strip_prefix
uid_entry-uid_name uid h = parse_u32-show_nat uid h

-- the entry of another uid, or of none, does not count
other-entry :
    (uid : ℕ) (o : Option ℕ) (l : List ℕ)
    → ((u : ℕ) → o ≡ some u → (u == uid) ≡ false)
    → any (λ u. u == uid) (onto_parsed o l) ≡ any (λ u. u == uid) l
other-entry uid none l h = refl
other-entry uid (some u) l h = rw (h u refl) refl

other-uid :
    (uid : ℕ) (name : Text)
    → IsCanonical name
    → (name == uid_name uid) ≡ false
    → (u : ℕ) → uid_entry name ≡ some u
    → (u == uid) ≡ false
other-uid uid name c n u e = elim (Bool-cases (u == uid)) [
  | inr d ↦ d
  | inl y ↦
      let same : u ≡ uid = (nat_beq_iff u uid).0 y in
      let named : name ≡ uid_name uid = rw same at (c u e) in
      absurd (ground (arith, n, (text_beq_iff name (uid_name uid)).1 named))
]

own-step :
    (uid : ℕ) (is_frozen listed : Bool) (rest : List ℕ)
    → any (λ u. u == uid) rest ≡ (listed && is_frozen)
    → any (λ u. u == uid) (if is_frozen then uid ∷ rest else rest) ≡ ((true || listed) && is_frozen)
own-step uid true listed rest h = rw ((nat_beq_iff uid uid).1 refl) refl
own-step uid false listed rest h = ground (arith, h)

module _ (os : Os) where
  open os use {World, dir}

  abbrev Lists : ℕ → List Text → World → Type 0
  Lists uid names w =
      any (λ u. u == uid) (frozen_in os names w)
      ≡ (any (λ n. n == uid_name uid) names && uid_has_frozen_procs os uid w)

  frozen_in_nil : (uid : ℕ) (w : World) → Lists uid [] w
  unfolding frozen_in
  frozen_in_nil uid w = refl

  frozen_in-own :
      (uid : ℕ) (ns : List Text) (w : World)
      → uid < 2 ^ 32
      → Lists uid ns w
      → Lists uid (uid_name uid ∷ ns) w
  unfolding frozen_in uid_has_frozen_procs uid_dir
  frozen_in-own uid ns w h below =
      let rest = frozen_in os ns w in
      let is_frozen = uid_has_frozen_procs os uid w in
      let listed = any (λ n. n == uid_name uid) ns in
      ap (λ o. any (λ u. u == uid) (if is_frozen then onto_parsed o rest else rest))
        (uid_entry-uid_name uid h)
      ∙ own-step uid is_frozen listed rest below
      ∙ ap (λ b. (b || listed) && is_frozen)
          (sym ((text_beq_iff (uid_name uid) (uid_name uid)).1 refl))

  frozen_in-other :
      (uid : ℕ) (name : Text) (ns : List Text) (w : World)
      → IsCanonical name
      → (name == uid_name uid) ≡ false
      → Lists uid ns w
      → Lists uid (name ∷ ns) w
  unfolding frozen_in
  frozen_in-other uid name ns w c n below =
      elim (Bool-cases (has_frozen os (under apps_dir name) w)) [
        | inl f ↦
            rw (frozen_in, f, n)
              (other-entry uid (uid_entry name) (frozen_in os ns w) (other-uid uid name c n)
                ∙ below)
        | inr f ↦ rw (f, n) below
      ]

  frozen_in_lem :
      (uid : ℕ) (names : List Text) (w : World)
      → uid < 2 ^ 32
      → All IsCanonical names
      → Lists uid names w
  frozen_in_lem uid [] w h c = frozen_in_nil uid w
  frozen_in_lem uid (n ∷ ns) w h c = elim (Bool-cases (n == uid_name uid)) [
    | inl y ↦
        let e : n ≡ uid_name uid = (text_beq_iff n (uid_name uid)).0 y in
        rw e (frozen_in-own uid ns w h (frozen_in_lem uid ns w h c.1))
    | inr d ↦ frozen_in-other uid n ns w c.0 d (frozen_in_lem uid ns w h c.1)
  ]

  -- Where each directory with the number of a uid is named by it without a plus sign or leading
  -- zero, a 32-bit uid is among the frozen uids exactly when it has a directory and the question
  -- for the one uid says that it is frozen.
  pub frozen_uids-uid_has_frozen_procs :
      (uid : ℕ) (w : World)
      → uid < 2 ^ 32
      → All IsCanonical (or_empty (dir apps_dir w))
      → any (λ u. u == uid) (frozen_uids os w) ≡ (
          any (λ n. n == uid_name uid) (or_empty (dir apps_dir w)) && uid_has_frozen_procs os uid w)
  unfolding frozen_uids
  frozen_uids-uid_has_frozen_procs uid w h c = frozen_in_lem uid (or_empty (dir apps_dir w)) w h c
