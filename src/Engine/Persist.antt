-- ===== src/Engine/Persist.antt =====
-- The OOM lock of the system chain, and what `tick` writes to disk: the frozen set and the events.
pub mod Laws
use sundown.Base.{
  ℕ, Bool, true, false, ◌&&◌, Option, none, some, List, [], ◌∷◌, Text, text_le, get, keys, ◌==◌,
  nat_eq, text_eq, sort_by, or_else, ltb, if◌then◌else◌,
}
use sundown.Engine.State.{EngineState, St}
use sundown.Engine.System.{System}
use sundown.Events.{pending_persist, persist_new, unflushed}
use sundown.Policy.Critical.{critical_packages}

-- `a == b` on snapshots, and the order of `sort`
unfoldable pub same_snapshot : List (Text × ℕ) → List (Text × ℕ) → Bool
same_snapshot [] [] = true
same_snapshot ((p, u) ∷ a) ((q, v) ∷ b) = p == q && (u == v && same_snapshot a b)
same_snapshot _ _ = false

abbrev pub pair_before : Text × ℕ → Text × ℕ → Bool
pair_before (p, u) (q, v) = if p == q then ltb u v else text_le p q

abbrev pub same_as_last : Option (List (Text × ℕ)) → List (Text × ℕ) → Bool
same_as_last none snap = false
same_as_last (some last) snap = same_snapshot last snap

-- `Vec::dedup`: of equal neighbours one is kept
unfoldable pub dedup_from : Text × ℕ → List (Text × ℕ) → List (Text × ℕ)
dedup_from x [] = x ∷ []
dedup_from (p, u) ((q, v) ∷ l) =
    let rest = dedup_from (q, v) l in if p == q && u == v then rest else (p, u) ∷ rest

unfoldable pub dedup : List (Text × ℕ) → List (Text × ℕ)
unfolding dedup_from
dedup [] = []
dedup (x ∷ l) = dedup_from x l

module _ (system : System) where
  open system use {
    Sys, pkg_uid, unfreeze_uid_keep_oom, protect_oom, write_frozen_state, append_events,
  }

  -- EngineState::lock_system_chain_oom
  unfoldable pub lock_uid : Option ℕ → Sys → Sys
  lock_uid none s = s
  lock_uid (some uid) s = (unfreeze_uid_keep_oom uid (protect_oom uid s).1).1

  unfoldable pub lock_chain : List Text → Sys → Sys
  unfolding lock_uid
  lock_chain [] s = s
  lock_chain (p ∷ ps) s = lock_chain ps (lock_uid (pkg_uid p s) s)

  unfoldable pub lock_system_chain_oom : St Sys → St Sys
  unfolding lock_chain
  lock_system_chain_oom st =
      let e = st.eng in
      record {
        eng = record e { system_chain_locked = true };
        sys = lock_uid e.media_uid (lock_chain critical_packages st.sys);
      }

  -- EngineState::persist_frozen_if_changed
  unfoldable pub uid_of : EngineState → Sys → Text → Option ℕ
  uid_of e s p = or_else (get p e.pkg_uids) (pkg_uid p s)

  unfoldable pub with_uid : Text → Option ℕ → List (Text × ℕ) → List (Text × ℕ)
  with_uid p none rest = rest
  with_uid p (some u) rest = (p, u) ∷ rest

  unfoldable pub snapshot_of : EngineState → Sys → List Text → List (Text × ℕ)
  unfolding uid_of with_uid
  snapshot_of e s [] = []
  snapshot_of e s (p ∷ ps) = with_uid p (uid_of e s p) (snapshot_of e s ps)

  unfoldable pub persist_frozen_if_changed : St Sys → St Sys
  unfolding snapshot_of same_snapshot dedup
  persist_frozen_if_changed st =
      let e = st.eng in
      let snap = dedup (sort_by pair_before (snapshot_of e st.sys (keys e.frozen))) in
      if same_as_last e.last_persist snap then st else record {
        eng = record e { last_persist = some snap };
        sys = (write_frozen_state snap st.sys).1;
      }

  -- `if self.events.pending_persist() > 0 { self.events.persist_new(..) }`
  unfoldable pub persist_written : Bool × Sys → St Sys → St Sys
  persist_written (written, s) st =
      let e = st.eng in
      record { eng = record e { events = (persist_new e.events written).2 }; sys = s }

  unfoldable pub persist_events : St Sys → St Sys
  unfolding persist_written
  persist_events st =
      let e = st.eng in
      if ltb 0 (pending_persist e.events)
      then persist_written (append_events (unflushed e.events) st.sys) st
      else st
