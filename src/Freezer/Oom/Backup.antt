-- ===== src/Freezer/Oom/Backup.antt =====
-- Protecting and restoring a uid puts the score of each of its processes back.
use mathlib.Core.Path.{subst}
use sundown.Base.{
  ℕ, ◌≡◌, refl, sym, ◌∙◌, arith, Bool, true, false, Option, none, some, List, [], ◌∷◌, ◌==◌, nat_eq,
  text_eq, nat_beq_iff, any, Map, get, remove, get-insert, get-remove, contains_key, ℤ, Bool-cases,
  inl, inr,
}
use sundown.Freezer.{Os, Fz, uid_pids}
use sundown.Freezer.Cgroup.{ScoreLaws, false-ne-true}
use sundown.Freezer.Oom.{
  IsScore, read_oom_adj, write_oom_adj, oom_protect, same_int, note_backup, protect_found, locked,
  protect_pid, protect_each, protect_oom, restored, restore_each, drop_each, restore_oom,
}
use sundown.Freezer.Oom.Scores.{protect-IsScore, score-other, score-written, score-writable}

module _ (os : Os) where
  open os use {World, read, write}

  -- one process whose memory no other process shares, and its first score
  module _ (pid : ℕ) (laws : ScoreLaws os pid) (v : ℤ) (range : IsScore v)
      (other : same_int v oom_protect ≡ false) where
    abbrev IsOpen : Fz World → Type 0
    IsOpen st = (read_oom_adj os pid st.world ≡ some v) × (get pid st.oom_backup ≡ none)

    abbrev IsLocked : Fz World → Type 0
    IsLocked st =
        (read_oom_adj os pid st.world ≡ some oom_protect) × (get pid st.oom_backup ≡ some v)

    locked-locks :
        (r : Bool × World) (st : Fz World)
        → r.0 ≡ true
        → read_oom_adj os pid r.1 ≡ some oom_protect
        → get pid st.oom_backup ≡ none
        → IsLocked (locked os pid v r st).1
    unfolding note_backup
    locked-locks (false, w) st h p n = absurd (false-ne-true h)
    locked-locks (true, w) st h p n =
        rw n (p, get-insert pid pid v st.oom_backup ∙ rw ((nat_beq_iff pid pid).1 refl) refl)

    protect_pid-locks : (st : Fz World) → IsOpen st → IsLocked (protect_pid os pid st).1
    unfolding protect_pid protect_found
    protect_pid-locks st o =
        let w = score-writable os pid laws v oom_protect st.world protect-IsScore o.0 in
        rw (o.0, other)
          (locked-locks (write_oom_adj os pid oom_protect st.world) st w
            (score-written os pid laws oom_protect st.world protect-IsScore w) o.1)

    protect_pid-again : (st : Fz World) → IsLocked st → IsLocked (protect_pid os pid st).1
    unfolding protect_pid protect_found
    protect_pid-again st l = rw (l.0) l

    -- the score and the record of the process are the same
    abbrev Same : Fz World → Fz World → Type 0
    Same st st' =
        (read_oom_adj os pid st'.world ≡ read_oom_adj os pid st.world)
        × (get pid st'.oom_backup ≡ get pid st.oom_backup)

    note_backup-other :
        (a : ℕ) (x : ℤ) (m : Map ℕ ℤ) → (a == pid) ≡ false → get pid (note_backup a x m) ≡ get pid m
    unfolding note_backup
    note_backup-other a x m n = elim (Bool-cases (contains_key a m)) [
      | inl b ↦ rw b refl
      | inr b ↦ rw b (get-insert a pid x m ∙ rw n refl)
    ]

    locked-other :
        (a : ℕ) (x : ℤ) (r : Bool × World) (st : Fz World)
        → (a == pid) ≡ false
        → read_oom_adj os pid r.1 ≡ read_oom_adj os pid st.world
        → Same st (locked os a x r st).1
    locked-other a x (false, w) st n h = (h, refl)
    locked-other a x (true, w) st n h = (h, note_backup-other a x st.oom_backup n)

    protect_found-other :
        (a : ℕ) (o : Option ℤ) (st : Fz World)
        → (a == pid) ≡ false
        → Same st (protect_found os a o st).1
    unfolding protect_found
    protect_found-other a none st n = (refl, refl)
    protect_found-other a (some x) st n = elim (Bool-cases (same_int x oom_protect)) [
      | inl b ↦ rw b (refl, refl)
      | inr b ↦ rw b (
          locked-other a x (write_oom_adj os a oom_protect st.world) st n
            (score-other os pid laws a oom_protect st.world n))
    ]

    protect_pid-other :
        (a : ℕ) (st : Fz World) → (a == pid) ≡ false → Same st (protect_pid os a st).1
    unfolding protect_pid
    protect_pid-other a st n = protect_found-other a (read_oom_adj os a st.world) st n

    IsLocked-Same : (st st' : Fz World) → Same st st' → IsLocked st → IsLocked st'
    IsLocked-Same st st' s l = (s.0 ∙ l.0, s.1 ∙ l.1)

    protect_each-keeps :
        (pids : List ℕ) (st : Fz World) → IsLocked st → IsLocked (protect_each os pids st).1
    unfolding protect_each
    protect_each-keeps [] st l = l
    protect_each-keeps (a ∷ pids) st l = elim (Bool-cases (a == pid)) [
      | inl y ↦
          let e : a ≡ pid = (nat_beq_iff a pid).0 y in
          protect_each-keeps pids (protect_pid os a st).1
            (subst (λ b. IsLocked (protect_pid os b st).1) (sym e) (protect_pid-again st l))
      | inr n ↦
          protect_each-keeps pids (protect_pid os a st).1
            (IsLocked-Same st (protect_pid os a st).1 (protect_pid-other a st n) l)
    ]

    protect_each-locks :
        (pids : List ℕ) (st : Fz World)
        → any (λ a. a == pid) pids ≡ true
        → IsOpen st
        → IsLocked (protect_each os pids st).1
    unfolding protect_each
    protect_each-locks [] st h o = absurd (false-ne-true h)
    protect_each-locks (a ∷ pids) st h o = elim (Bool-cases (a == pid)) [
      | inl y ↦
          let e : a ≡ pid = (nat_beq_iff a pid).0 y in
          protect_each-keeps pids (protect_pid os a st).1
            (subst (λ b. IsLocked (protect_pid os b st).1) (sym e) (protect_pid-locks st o))
      | inr n ↦
          let s = protect_pid-other a st n in
          protect_each-locks pids (protect_pid os a st).1 (rw n at h) (s.0 ∙ o.0, s.1 ∙ o.1)
    ]

    -- the score after a restore, from the records `m`
    restored-other :
        (a : ℕ) (o : Option ℤ) (w : World)
        → (a == pid) ≡ false
        → read_oom_adj os pid (restored os a o w).1 ≡ read_oom_adj os pid w
    restored-other a none w n = refl
    restored-other a (some x) w n = score-other os pid laws a x w n

    restored-back :
        (x : ℤ) (m : Map ℕ ℤ) (w : World)
        → get pid m ≡ some v
        → read_oom_adj os pid w ≡ some x
        → read_oom_adj os pid (restored os pid (get pid m) w).1 ≡ some v
    restored-back x m w h r =
        rw h (score-written os pid laws v w range (score-writable os pid laws x v w range r))

    restore_each-keeps :
        (pids : List ℕ) (m : Map ℕ ℤ) (w : World)
        → get pid m ≡ some v
        → read_oom_adj os pid w ≡ some v
        → read_oom_adj os pid (restore_each os pids m w).1 ≡ some v
    unfolding restore_each
    restore_each-keeps [] m w h r = r
    restore_each-keeps (a ∷ pids) m w h r = elim (Bool-cases (a == pid)) [
      | inl y ↦
          let e : a ≡ pid = (nat_beq_iff a pid).0 y in
          restore_each-keeps pids m (restored os a (get a m) w).1 h (
            subst (λ b. read_oom_adj os pid (restored os b (get b m) w).1 ≡ some v) (sym e)
              (restored-back v m w h r))
      | inr n ↦
          restore_each-keeps pids m (restored os a (get a m) w).1 h
            (restored-other a (get a m) w n ∙ r)
    ]

    restore_each-back :
        (x : ℤ) (pids : List ℕ) (m : Map ℕ ℤ) (w : World)
        → any (λ a. a == pid) pids ≡ true
        → get pid m ≡ some v
        → read_oom_adj os pid w ≡ some x
        → read_oom_adj os pid (restore_each os pids m w).1 ≡ some v
    unfolding restore_each
    restore_each-back x [] m w i h r = absurd (false-ne-true i)
    restore_each-back x (a ∷ pids) m w i h r = elim (Bool-cases (a == pid)) [
      | inl y ↦
          let e : a ≡ pid = (nat_beq_iff a pid).0 y in
          restore_each-keeps pids m (restored os a (get a m) w).1 h (
            subst (λ b. read_oom_adj os pid (restored os b (get b m) w).1 ≡ some v) (sym e)
              (restored-back x m w h r))
      | inr n ↦
          restore_each-back x pids m (restored os a (get a m) w).1 (rw n at i) h
            (restored-other a (get a m) w n ∙ r)
    ]

    drop_each-none :
        (pids : List ℕ) (m : Map ℕ ℤ) → get pid m ≡ none → get pid (drop_each pids m) ≡ none
    unfolding drop_each
    drop_each-none [] m h = h
    drop_each-none (a ∷ pids) m h =
        drop_each-none pids (remove a m) (ground (arith, get-remove a pid m, h))

    drop_each-gone :
        (pids : List ℕ) (m : Map ℕ ℤ)
        → any (λ a. a == pid) pids ≡ true
        → get pid (drop_each pids m) ≡ none
    unfolding drop_each
    drop_each-gone [] m i = absurd (false-ne-true i)
    drop_each-gone (a ∷ pids) m i = elim (Bool-cases (a == pid)) [
      | inl y ↦ drop_each-none pids (remove a m) (get-remove a pid m ∙ rw y refl)
      | inr n ↦ drop_each-gone pids (remove a m) (rw n at i)
    ]

    -- For a process whose score in the range of -1000 to 1000 can be written, reads as it was
    -- written and is no other process's, which has such a score that is not the protected one and
    -- no record, and which is listed for the uid before it is protected and after, protecting the
    -- uid sets the score to the protected one and records the first; restoring the uid then puts
    -- the first score back and drops the record.
    pub restore-protect_oom :
        (uid : ℕ) (st : Fz World)
        → any (λ a. a == pid) (uid_pids os uid st.world) ≡ true
        → any (λ a. a == pid) (uid_pids os uid (protect_oom os uid st).1.world) ≡ true
        → IsOpen st
        → IsLocked (protect_oom os uid st).1
          × IsOpen (restore_oom os uid (protect_oom os uid st).1).1
    unfolding protect_oom restore_oom
    restore-protect_oom uid st i j o =
        let mid = (protect_oom os uid st).1 in
        let locks : IsLocked mid = protect_each-locks (uid_pids os uid st.world) st i o in
        let pids = uid_pids os uid mid.world in
        (
          locks,
          (
            restore_each-back oom_protect pids mid.oom_backup mid.world j locks.1 locks.0,
            drop_each-gone pids mid.oom_backup j,
          ),
        )
