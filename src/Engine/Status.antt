-- ===== src/Engine/Status.antt =====
-- What daemon/src/engine.rs tells others of its tables: the uids that are sent down to the
-- framework hooks, and the sorted lists of the status reply.
pub mod Laws
use sundown.Base.{
  ℕ, none, some, List, [], ◌∷◌, ◌++◌, Text, text_le, get, keys, text_eq, ◌==◌, nat_eq, sort_by,
  or_else, leb, if◌then◌else◌,
}
use sundown.Engine.State.{EngineState, St}
use sundown.Engine.System.{System}

-- `Vec::dedup` on numbers
unfoldable pub dedup_from_nat : ℕ → List ℕ → List ℕ
dedup_from_nat x [] = x ∷ []
dedup_from_nat x (y ∷ l) = let rest = dedup_from_nat y l in if x == y then rest else x ∷ rest

unfoldable pub dedup_nat : List ℕ → List ℕ
unfolding dedup_from_nat
dedup_nat [] = []
dedup_nat (x ∷ l) = dedup_from_nat x l

-- `sort_unstable` and `dedup`
abbrev pub sorted_uids : List ℕ → List ℕ
sorted_uids l = dedup_nat (sort_by leb l)

-- EngineState::frozen_packages, grace_pending
unfoldable pub frozen_packages : EngineState → List Text
frozen_packages e = sort_by text_le (keys e.frozen)

unfoldable pub grace_pending : EngineState → List Text
grace_pending e = sort_by text_le (keys e.grace)

module _ (system : System) where
  open system use {Sys, pkg_uid}

  -- the uids of the packages, the table of the engine before the package list of the system
  unfoldable pub uids_of : List Text → St Sys → List ℕ
  uids_of [] st = []
  uids_of (p ∷ ps) st =
      let rest = uids_of ps st in
      elim (or_else (get p st.eng.pkg_uids) (pkg_uid p st.sys)) [ none ↦ rest | some u ↦ u ∷ rest ]

  -- EngineState::sundown_frozen_uids
  unfoldable pub sundown_frozen_uids : St Sys → List ℕ
  unfolding dedup_nat
  sundown_frozen_uids st = sorted_uids (uids_of (keys st.eng.frozen) st)

  -- EngineState::sundown_candidate_uids
  unfoldable pub sundown_candidate_uids : St Sys → List ℕ
  unfolding dedup_nat
  sundown_candidate_uids st =
      let e = st.eng in
      sorted_uids
        (uids_of (keys e.frozen) st ++ (uids_of (keys e.grace) st ++ uids_of (keys e.adj_keep) st))
