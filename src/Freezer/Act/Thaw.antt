-- ===== src/Freezer/Act/Thaw.antt =====
-- What a thaw leaves: no level of the uid reads as frozen. The laws of the files are those of
-- Freezer/Cgroup.
use sundown.Base.{
  All, Lacks, ℕ, ◌≡◌, refl, sym, ◌∙◌, true, false, Option, none, some, List, [], ◌∷◌, Text, str,
  ◌==◌, text_eq, text_beq_iff, text_beq, trim, any, is_some, Bool-cases, inl, inr, Map, ℤ, get,
  nat_eq,
}
use sundown.Freezer.{
  Os, Fz, cont, freeze_file, uid_dir, under, is_pid_entry, or_empty, says_one, is_frozen_dir,
  entry_frozen, has_frozen, uid_has_frozen_procs, uid_pids,
}
use sundown.Freezer.Cgroup.{
  CgroupLaws, IsLevel, SameTree, SameTree-trans, write_oom_adj-SameTree, false-ne-true,
}
use sundown.Freezer.Act.{
  signal_each, sigcont_uid, signal_uid, thaw_entry, thaw_entries, thaw_dir, unfreeze_uid_keep_oom,
  unfreeze_uid,
}
use sundown.Freezer.Oom.{restore_each, restore_oom, restored}
use sundown.Freezer.Warm.{madvise_warm_uid}

zero_one : (str "0" == str "1") ≡ false
unfolding text_beq
zero_one = refl

says_one-zero : (s : Text) → trim s ≡ str "0" → says_one (some s) ≡ false
says_one-zero s h = rw h zero_one

missing : (o : Option Text) → (is_some o ≡ true → ⊥) → says_one o ≡ false
missing none h = refl
missing (some s) h = absurd (h refl)

module _ (os : Os) (laws : CgroupLaws os) where
  open os use {World, read, write, dir, signal}

  zero_here :
      (d : Text) (w : World)
      → IsLevel d
      → is_frozen_dir os d (write (freeze_file d) (str "0") w).1 ≡ false
  unfolding is_frozen_dir
  zero_here d w l = elim (Bool-cases (write (freeze_file d) (str "0") w).0) [
    | inl b ↦ let r = laws.written d false w l b in rw r.1 (says_one-zero r.0 r.2)
    | inr b ↦
        rw (laws.refused d false w l b)
          (missing (read (freeze_file d) w) (λ h. false-ne-true (sym b ∙ laws.writable d w l h)))
  ]

  zero_keeps :
      (e d : Text) (w : World)
      → IsLevel e
      → IsLevel d
      → is_frozen_dir os d w ≡ false
      → is_frozen_dir os d (write (freeze_file e) (str "0") w).1 ≡ false
  unfolding is_frozen_dir
  zero_keeps e d w k l h = elim (Bool-cases (freeze_file e == freeze_file d)) [
    | inr n ↦ rw (laws.elsewhere e d false w k l n) h
    | inl y ↦ rw ((text_beq_iff (freeze_file e) (freeze_file d)).0 y) (zero_here d w l)
  ]

  module _ (uid : ℕ) where
    abbrev base : Text
    base = uid_dir uid

    -- names of a directory, and the level of a name that is an entry
    abbrev Plain : List Text → Type 0
    Plain names = All (λ n. Lacks b'/' n) names

    -- after a thaw of an entry it is not frozen, and what was not frozen is not
    thaw_entry-thaws :
        (name : Text) (w : World)
        → Lacks b'/' name
        → entry_frozen os base (thaw_entry os base name w) name ≡ false
    unfolding entry_frozen thaw_entry
    thaw_entry-thaws name w p = elim (Bool-cases (is_pid_entry name)) [
      | inl b ↦ rw b (zero_here (under base name) w (IsLevel.process uid name b p))
      | inr b ↦ rw b refl
    ]

    thaw_entry-keeps :
        (name d : Text) (w : World)
        → Lacks b'/' name
        → IsLevel d
        → is_frozen_dir os d w ≡ false
        → is_frozen_dir os d (thaw_entry os base name w) ≡ false
    unfolding thaw_entry
    thaw_entry-keeps name d w p l h = elim (Bool-cases (is_pid_entry name)) [
      | inl b ↦ rw b (zero_keeps (under base name) d w (IsLevel.process uid name b p) l h)
      | inr b ↦ rw b h
    ]

    thaw_entries-keeps :
        (d : Text) (names : List Text) (w : World)
        → Plain names
        → IsLevel d
        → is_frozen_dir os d w ≡ false
        → is_frozen_dir os d (thaw_entries os base names w) ≡ false
    unfolding thaw_entries
    thaw_entries-keeps d [] w p l h = h
    thaw_entries-keeps d (n ∷ ns) w p l h =
        thaw_entries-keeps d ns (thaw_entry os base n w) p.1 l (thaw_entry-keeps n d w p.0 l h)

    entry_frozen-keeps :
        (name : Text) (names : List Text) (w : World)
        → Plain (name ∷ names)
        → entry_frozen os base w name ≡ false
        → entry_frozen os base (thaw_entries os base names w) name ≡ false
    unfolding entry_frozen
    entry_frozen-keeps name names w p h = elim (Bool-cases (is_pid_entry name)) [
      | inl b ↦ rw b (
          thaw_entries-keeps (under base name) names w p.1 (IsLevel.process uid name b p.0)
            (rw b at h))
      | inr b ↦ rw b refl
    ]

    thaw_entries-thaws :
        (names : List Text) (w : World)
        → Plain names
        → any (entry_frozen os base (thaw_entries os base names w)) names ≡ false
    unfolding thaw_entries
    thaw_entries-thaws [] w p = refl
    thaw_entries-thaws (n ∷ ns) w p =
        let w1 = thaw_entry os base n w in
        rw (entry_frozen-keeps n ns w1 p (thaw_entry-thaws n w p.0)) (thaw_entries-thaws ns w1 p.1)

    thaw_entry-dir :
        (name : Text) (w : World)
        → Lacks b'/' name
        → dir base (thaw_entry os base name w) ≡ dir base w
    unfolding thaw_entry
    thaw_entry-dir name w p = elim (Bool-cases (is_pid_entry name)) [
      | inl b ↦ rw b (laws.same_dir (under base name) false uid w (IsLevel.process uid name b p))
      | inr b ↦ rw b refl
    ]

    thaw_entries-dir :
        (names : List Text) (w : World)
        → Plain names
        → dir base (thaw_entries os base names w) ≡ dir base w
    unfolding thaw_entries
    thaw_entries-dir [] w p = refl
    thaw_entries-dir (n ∷ ns) w p =
        thaw_entries-dir ns (thaw_entry os base n w) p.1 ∙ thaw_entry-dir n w p.0

    thaw_dir-thaws : (w : World) → has_frozen os base (thaw_dir os base w).1 ≡ false
    unfolding has_frozen thaw_dir
    thaw_dir-thaws w =
        let w1 = (write (freeze_file base) (str "0") w).1 in
        let names = or_empty (dir base w1) in
        let plain = laws.plain_names uid w1 in
        rw
          (
            thaw_entries-keeps base names w1 plain (IsLevel.app uid)
                (zero_here base w (IsLevel.app uid)),
            thaw_entries-dir names w1 plain,
          )
          (thaw_entries-thaws names w1 plain)

    entry_frozen-same :
        (name : Text) (w w' : World)
        → Lacks b'/' name
        → SameTree os w w'
        → entry_frozen os base w' name ≡ entry_frozen os base w name
    unfolding entry_frozen is_frozen_dir
    entry_frozen-same name w w' p t = elim (Bool-cases (is_pid_entry name)) [
      | inl b ↦ rw (b, t.0 (under base name) (IsLevel.process uid name b p)) refl
      | inr b ↦ rw b refl
    ]

    entries-same :
        (names : List Text) (w w' : World)
        → Plain names
        → SameTree os w w'
        → any (entry_frozen os base w') names ≡ any (entry_frozen os base w) names
    entries-same [] w w' p t = refl
    entries-same (n ∷ ns) w w' p t =
        rw (entry_frozen-same n w w' p.0 t, entries-same ns w w' p.1 t) refl

    has_frozen-same :
        (w w' : World) → SameTree os w w' → has_frozen os base w' ≡ has_frozen os base w
    unfolding has_frozen is_frozen_dir
    has_frozen-same w w' t =
        rw
          (
            t.0 base (IsLevel.app uid),
            t.1 uid,
            entries-same (or_empty (dir base w)) w w' (laws.plain_names uid w) t,
          )
          refl

  signal_each-SameTree : (pids : List ℕ) (w : World) → SameTree os w (signal_each os cont pids w).1
  unfolding signal_each
  signal_each-SameTree [] w = (λ d l. refl, λ u. refl)
  signal_each-SameTree (pid ∷ pids) w =
      SameTree-trans os w (signal pid cont w).1 (signal_each os cont (pid ∷ pids) w).1
        (λ d l. laws.cont_read pid d w l, λ u. laws.cont_dir pid u w)
        (signal_each-SameTree pids (signal pid cont w).1)

  restored-SameTree : (pid : ℕ) (o : Option ℤ) (w : World) → SameTree os w (restored os pid o w).1
  restored-SameTree pid none w = (λ d l. refl, λ u. refl)
  restored-SameTree pid (some v) w = write_oom_adj-SameTree os laws pid v w

  restore_each-SameTree :
      (pids : List ℕ) (m : Map ℕ ℤ) (w : World) → SameTree os w (restore_each os pids m w).1
  unfolding restore_each
  restore_each-SameTree [] m w = (λ d l. refl, λ u. refl)
  restore_each-SameTree (pid ∷ pids) m w =
      let w1 = (restored os pid (get pid m) w).1 in
      SameTree-trans os w w1 (restore_each os pids m w1).1 (restored-SameTree pid (get pid m) w)
        (restore_each-SameTree pids m w1)

  -- Where the cgroup.freeze files of the uids and of their process entries are as the kernel
  -- documents them (each reads as it was last written, can be written with 0 while it is there,
  -- and is changed, like the directories, by no write to another one, no SIGCONT and no score),
  -- neither the uid nor any of its process entries reads as frozen after either thaw of the uid.
  pub unfreeze_uid-thaws :
      (uid : ℕ) (st : Fz World)
      → (uid_has_frozen_procs os uid (unfreeze_uid_keep_oom os uid st).1.world ≡ false)
        × (uid_has_frozen_procs os uid (unfreeze_uid os uid st).1.world ≡ false)
  unfolding uid_has_frozen_procs unfreeze_uid unfreeze_uid_keep_oom sigcont_uid signal_uid
      restore_oom
  unfreeze_uid-thaws uid st =
      let w1 = (thaw_dir os (base uid) (madvise_warm_uid os uid st).1.world).1 in
      let kept = (unfreeze_uid_keep_oom os uid st).1 in
      let thawed : has_frozen os (base uid) w1 ≡ false =
        thaw_dir-thaws uid (madvise_warm_uid os uid st).1.world in
      let after : has_frozen os (base uid) kept.world ≡ false =
        has_frozen-same uid w1 kept.world (signal_each-SameTree (uid_pids os uid w1) w1) ∙ thawed in
      (
        after,
        has_frozen-same uid kept.world (unfreeze_uid os uid st).1.world
              (restore_each-SameTree (uid_pids os uid kept.world) kept.oom_backup kept.world)
            ∙ after,
      )
