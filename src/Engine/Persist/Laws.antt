-- ===== src/Engine/Persist/Laws.antt =====
-- What a tick writes: the frozen set once for each change, the events once each.
use sundown.Base.{
  if◌then◌else◌, ℕ, ◌⊎◌, inl, inr, Bool-cases, keys, sort_by, true, ◌≡◌, refl, arith, List, [], ◌∷◌,
  Text, text_eq, nat_eq, text_beq_iff, some,
}
use sundown.Engine.Persist.{
  uid_of, same_snapshot, same_as_last, pair_before, persist_frozen_if_changed, persist_events,
  persist_written, snapshot_of, dedup,
}
use sundown.Engine.State.{EngineState, St}
use sundown.Engine.System.{System}
use sundown.Events.{pending_persist, unflushed}
use sundown.Events.Laws.{IsBuffer, persist_new_lem}

same_snapshot_refl : (l : List (Text × ℕ)) → same_snapshot l l ≡ true
unfolding same_snapshot
same_snapshot_refl [] = refl
same_snapshot_refl ((p, u) ∷ l) = ground (arith, text_beq_iff p p, same_snapshot_refl l)

module _ (system : System) where
  open system use {Sys}

  uid_of-eq :
      (e e' : EngineState) (s s' : Sys) (p : Text)
      → e'.pkg_uids ≡ e.pkg_uids
      → system.pkg_uid p s' ≡ system.pkg_uid p s
      → uid_of system e' s' p ≡ uid_of system e s p
  unfolding uid_of
  uid_of-eq e e' s s' p h k = rw (h, k) refl

  snapshot_of-eq :
      (e e' : EngineState) (s s' : Sys) (ps : List Text)
      → e'.pkg_uids ≡ e.pkg_uids
      → ((p : Text) → system.pkg_uid p s' ≡ system.pkg_uid p s)
      → snapshot_of system e' s' ps ≡ snapshot_of system e s ps
  unfolding snapshot_of
  snapshot_of-eq e e' s s' [] h k = refl
  snapshot_of-eq e e' s s' (p ∷ ps) h k =
      rw (snapshot_of-eq e e' s s' ps h k, uid_of-eq e e' s s' p h (k p)) refl

  abbrev snapshot : St Sys → List (Text × ℕ)
  snapshot st =
      let e = st.eng in dedup (sort_by pair_before (snapshot_of system e st.sys (keys e.frozen)))

  abbrev written : St Sys → St Sys
  written st =
      let e = st.eng in
      let snap = snapshot st in
      record {
        eng = record e { last_persist = some snap };
        sys = (system.write_frozen_state snap st.sys).1;
      }

  persist_frozen_cases :
      (st : St Sys)
      → (persist_frozen_if_changed system st ≡ st)
        ⊎ (persist_frozen_if_changed system st ≡ written st)
  unfolding persist_frozen_if_changed
  persist_frozen_cases st = elim (Bool-cases (same_as_last st.eng.last_persist (snapshot st))) [
    | inl y ↦ inl (rw y refl)
    | inr n ↦ inr (rw n refl)
  ]

  written_again :
      (st : St Sys)
      → ((p : Text) → system.pkg_uid p (written st).sys ≡ system.pkg_uid p st.sys)
      → persist_frozen_if_changed system (written st) ≡ written st
  unfolding persist_frozen_if_changed
  written_again st h =
      let e = st.eng in
      let w = written st in
      rw
        (
          snapshot_of-eq e w.eng st.sys w.sys (keys e.frozen) refl h,
          same_snapshot_refl (snapshot st),
        )
        refl

  -- Where the write leaves the package list alone, writing the frozen set a second time without a
  -- change in between does nothing.
  pub persist_frozen_twice :
      (st : St Sys)
      → ((p : Text) → system.pkg_uid p (written st).sys ≡ system.pkg_uid p st.sys)
      → let st' = persist_frozen_if_changed system st in persist_frozen_if_changed system st' ≡ st'
  persist_frozen_twice st h = elim (persist_frozen_cases st) [
    | inl e ↦ rw (e, e) refl
    | inr e ↦ rw (e, written_again st h) refl
  ]

  -- On a well-formed buffer the event write of a tick keeps it well-formed; when the log takes
  -- the write no event is pending, and when it does not the buffer is unchanged.
  pub persist_events_lem :
      (st : St Sys)
      → IsBuffer st.eng.events
      → let w = system.append_events (unflushed st.eng.events) st.sys in
        let e' = (persist_events system st).eng in
        IsBuffer e'.events
        × (if w.0 then pending_persist e'.events ≡ 0 else e'.events ≡ st.eng.events)
  unfolding persist_events persist_written
  persist_events_lem st h =
      let w = system.append_events (unflushed st.eng.events) st.sys in
      ground (arith, persist_new_lem st.eng.events w.0 h)
