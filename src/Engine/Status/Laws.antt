-- ===== src/Engine/Status/Laws.antt =====
-- The lists of uids that the engine sends down: increasing, and exactly the uids of its tables.
use sundown.Base.{
  ℕ, ◌+◌, ◌≤◌, Bool, ◌||◌, ◌≡◌, refl, arith, ◌∙◌, List, [], ◌∷◌, ◌++◌, any, any-append, any-sort_by,
  IsAscending, sort_by-IsAscending, sort_by, leb, keys, ◌==◌, nat_eq, nat_beq_iff, Bool-cases, inl,
  inr,
}
use sundown.Engine.State.{St}
use sundown.Engine.Status.{
  dedup_from_nat, dedup_nat, sorted_uids, uids_of, sundown_frozen_uids, sundown_candidate_uids,
}
use sundown.Engine.System.{System}

-- numbers that increase, none below `k`: none is there twice
abbrev pub IsIncreasing : ℕ → List ℕ → Type 0
IsIncreasing k [] = Unit
IsIncreasing k (x ∷ xs) = (k ≤ x) × IsIncreasing (x + 1) xs

dedup_from_nat-IsIncreasing :
    (k x : ℕ) (l : List ℕ) → k ≤ x → IsAscending x l → IsIncreasing k (dedup_from_nat x l)
unfolding dedup_from_nat
dedup_from_nat-IsIncreasing k x [] h s = (h, tt)
dedup_from_nat-IsIncreasing k x (y ∷ l) h s = elim (Bool-cases (x == y)) [
  | inl b ↦ rw b (dedup_from_nat-IsIncreasing k y l (omega (arith, s.0, h)) s.1)
  | inr b ↦ rw b (h, dedup_from_nat-IsIncreasing (x + 1) y l (ground (arith, b, s.0)) s.1)
]

dedup_nat-IsIncreasing : (l : List ℕ) → IsAscending 0 l → IsIncreasing 0 (dedup_nat l)
unfolding dedup_nat
dedup_nat-IsIncreasing [] s = tt
dedup_nat-IsIncreasing (x ∷ l) s = dedup_from_nat-IsIncreasing 0 x l s.0 s.1

any-dedup_from_nat :
    (u x : ℕ) (l : List ℕ)
    → any (λ v. v == u) (dedup_from_nat x l) ≡ (x == u || any (λ v. v == u) l)
unfolding dedup_from_nat
any-dedup_from_nat u x [] = refl
any-dedup_from_nat u x (y ∷ l) = ground (arith, any-dedup_from_nat u y l, nat_beq_iff x y)

any-dedup_nat : (u : ℕ) (l : List ℕ) → any (λ v. v == u) (dedup_nat l) ≡ any (λ v. v == u) l
unfolding dedup_nat
any-dedup_nat u [] = refl
any-dedup_nat u (x ∷ l) = any-dedup_from_nat u x l

any-sorted_uids : (u : ℕ) (l : List ℕ) → any (λ v. v == u) (sorted_uids l) ≡ any (λ v. v == u) l
any-sorted_uids u l = any-dedup_nat u (sort_by leb l) ∙ any-sort_by leb (λ v. v == u) l

module _ (system : System) where
  open system use {Sys}

  -- The frozen and the candidate uids that are sent down are strictly increasing lists; the first
  -- has exactly the uids of the frozen table, and the second those of the frozen, the grace and
  -- the OOM table.
  pub candidate_uids_lem :
      (u : ℕ) (st : St Sys)
      → let has : List ℕ → Bool = any (λ v. v == u) in
        let e = st.eng in
        IsIncreasing 0 (sundown_frozen_uids system st)
        × IsIncreasing 0 (sundown_candidate_uids system st)
        × (has (sundown_frozen_uids system st) ≡ has (uids_of system (keys e.frozen) st))
        × (has (sundown_candidate_uids system st) ≡ (
            has (uids_of system (keys e.frozen) st)
            || (has (uids_of system (keys e.grace) st)
                || has (uids_of system (keys e.adj_keep) st))))
  unfolding sundown_frozen_uids sundown_candidate_uids
  candidate_uids_lem u st =
      let e = st.eng in
      let f = uids_of system (keys e.frozen) st in
      let g = uids_of system (keys e.grace) st in
      let a = uids_of system (keys e.adj_keep) st in
      (
        dedup_nat-IsIncreasing (sort_by leb f) (sort_by-IsAscending f),
        dedup_nat-IsIncreasing (sort_by leb (f ++ (g ++ a))) (sort_by-IsAscending (f ++ (g ++ a))),
        any-sorted_uids u f,
        ground (
          arith,
          any-sorted_uids u (f ++ (g ++ a)),
          any-append (λ v. v == u) f (g ++ a),
          any-append (λ v. v == u) g a,
        ),
      )
