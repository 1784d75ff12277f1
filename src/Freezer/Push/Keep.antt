-- ===== src/Freezer/Push/Keep.antt =====
-- The selective freeze leaves a `:push` process alone: neither its cgroup nor that of its uid is
-- frozen.
use mathlib.Core.Path.{subst}
use sundown.Base.{
  All, Lacks, ℕ, suc, ◌≤◌, ◌<◌, ◌≡◌, refl, sym, ap, ◌∙◌, arith, true, false, Option, none, some,
  List, [], ◌∷◌, Text, str, ◌==◌, nat_eq, text_eq, text_beq_iff, any, strip_prefix, some_inj,
  Bool-cases, inl, inr, is_some, starts_with-strip_prefix,
}
use sundown.Freezer.{
  Os, Fz, uid_dir, freeze_file, under, pid_entry, is_pid_entry, uid_pids, number_behind, or_empty,
}
use sundown.Freezer.Act.{write_freeze}
use sundown.Freezer.Cgroup.{CgroupLaws, IsLevel, SameTree, false-ne-true}
use sundown.Freezer.Oom.{protect_oom}
use sundown.Freezer.Push.{
  Tally, is_push_proc, push_text, keep_pid, keep_entry, keep_entries, kept_result, keep_in,
  no_tally,
}
use sundown.Freezer.Push.Paths.{different, entries-differ, entry-uid-differ, protect_each-SameTree}

number_behind-found : (o : Option Text) {pid : ℕ} → number_behind o ≡ some pid → is_some o ≡ true
number_behind-found none h = ground (arith, h)
number_behind-found (some s) h = refl

-- the counters grow
abbrev Grows : Tally → Tally → Type 0
Grows t t' = (t.kept ≤ t'.kept) × (t.found ≤ t'.found)

module _ (os : Os) (laws : CgroupLaws os) where
  open os use {World, read, write, dir}

  -- an entry of the uid whose process is of the push kind
  module _ (uid : ℕ) (name : Text) (pid : ℕ) (entry : pid_entry name ≡ some pid)
      (plain : Lacks b'/' name) where
    abbrev base : Text
    base = uid_dir uid

    abbrev Spared : World → World → Type 0
    Spared w w' =
        (read (freeze_file (under base name)) w' ≡ read (freeze_file (under base name)) w)
        × (read (freeze_file base) w' ≡ read (freeze_file base) w)
        × (is_push_proc os pid w' ≡ is_push_proc os pid w)

    Spared-trans : (a b c : World) → Spared a b → Spared b c → Spared a c
    Spared-trans a b c p q = (q.0 ∙ p.0, q.1 ∙ p.1, q.2 ∙ p.2)

    is_entry : is_pid_entry name ≡ true
    unfolding pid_entry
    is_entry =
        starts_with-strip_prefix (str "pid_") name
        ∙ number_behind-found (strip_prefix (str "pid_") name) entry

    level : IsLevel (under base name)
    level = IsLevel.process uid name is_entry plain

    write-Spared :
        (n : Text) (w : World)
        → is_pid_entry n ≡ true
        → Lacks b'/' n
        → (n == name) ≡ false
        → Spared w (write_freeze os (freeze_file (under base n)) (str "1") w).1
    unfolding write_freeze is_push_proc
    write-Spared n w b p h =
        let d = under base n in
        let l : IsLevel d = IsLevel.process uid n b p in
        (
          laws.elsewhere d (under base name) true w l level (entries-differ base n name h),
          laws.elsewhere d base true w l (IsLevel.app uid) (entry-uid-differ base n),
          ap push_text (laws.same_cmdline d true pid w l),
        )

    keep_pid-Spared :
        (n : Text) (o : Option ℕ) (t : Tally) (w : World)
        → is_pid_entry n ≡ true
        → Lacks b'/' n
        → pid_entry n ≡ o
        → is_push_proc os pid w ≡ true
        → Spared w (keep_pid os (under base n) o t w).1
    unfolding keep_pid
    keep_pid-Spared n none t w k l e h = (refl, refl, refl)
    keep_pid-Spared n (some p) t w k l e h = elim (Bool-cases (is_push_proc os p w)) [
      | inl b ↦ rw b (refl, refl, refl)
      | inr b ↦ rw b (
          write-Spared n w k l (
            different n name (λ same.
              let pids : some p ≡ some pid = sym e ∙ ap pid_entry same ∙ entry in
              sym b ∙ ap (λ q. is_push_proc os q w) (some_inj pids) ∙ h)))
    ]

    keep_entry-Spared :
        (n : Text) (t : Tally) (w : World)
        → Lacks b'/' n
        → is_push_proc os pid w ≡ true
        → Spared w (keep_entry os base n t w).1
    unfolding keep_entry
    keep_entry-Spared n t w l h = elim (Bool-cases (is_pid_entry n)) [
      | inl b ↦
          rw b (keep_pid-Spared n (pid_entry n) (record t { found = suc t.found }) w b l refl h)
      | inr b ↦ rw b (refl, refl, refl)
    ]

    keep_entries-Spared :
        (ns : List Text) (t : Tally) (w : World)
        → All (λ n. Lacks b'/' n) ns
        → is_push_proc os pid w ≡ true
        → Spared w (keep_entries os base ns t w).1
    unfolding keep_entries
    keep_entries-Spared [] t w l h = (refl, refl, refl)
    keep_entries-Spared (n ∷ ns) t w l h =
        let r = keep_entry os base n t w in
        let first = keep_entry-Spared n t w l.0 h in
        Spared-trans w r.1 (keep_entries os base ns r.0 r.1).1 first
          (keep_entries-Spared ns r.0 r.1 l.1 (first.2 ∙ h))

    keep_pid-Grows :
        (n : Text) (o : Option ℕ) (t : Tally) (w : World)
        → Grows t (keep_pid os (under base n) o (record t { found = suc t.found }) w).0
    unfolding keep_pid
    keep_pid-Grows n none t w = (omega arith, omega arith)
    keep_pid-Grows n (some p) t w = elim (Bool-cases (is_push_proc os p w)) [
      | inl b ↦ rw b (omega arith, omega arith)
      | inr b ↦ rw b (omega arith, omega arith)
    ]

    keep_entry-Grows : (n : Text) (t : Tally) (w : World) → Grows t (keep_entry os base n t w).0
    unfolding keep_entry
    keep_entry-Grows n t w = elim (Bool-cases (is_pid_entry n)) [
      | inr b ↦ rw b (omega arith, omega arith)
      | inl b ↦ rw b (keep_pid-Grows n (pid_entry n) t w)
    ]

    keep_entries-Grows :
        (ns : List Text) (t : Tally) (w : World) → Grows t (keep_entries os base ns t w).0
    unfolding keep_entries
    keep_entries-Grows [] t w = (omega arith, omega arith)
    keep_entries-Grows (n ∷ ns) t w =
        let r = keep_entry os base n t w in
        let a = keep_entry-Grows n t w in
        let b = keep_entries-Grows ns r.0 r.1 in (omega (arith, a.0, b.0), omega (arith, a.1, b.1))

    -- the entry of the process is counted as found and kept
    abbrev Counted : Tally → Type 0
    Counted t = (0 < t.kept) × (0 < t.found)

    keep_entry-Counted :
        (t : Tally) (w : World)
        → is_push_proc os pid w ≡ true
        → Counted (keep_entry os base name t w).0
    unfolding keep_entry keep_pid
    keep_entry-Counted t w h = rw (is_entry, entry, h) (omega arith, omega arith)

    keep_entries-Counted :
        (ns : List Text) (t : Tally) (w : World)
        → All (λ n. Lacks b'/' n) ns
        → is_push_proc os pid w ≡ true
        → any (λ n. n == name) ns ≡ true
        → Counted (keep_entries os base ns t w).0
    unfolding keep_entries
    keep_entries-Counted [] t w l h i = absurd (false-ne-true i)
    keep_entries-Counted (n ∷ ns) t w l h i =
        let r = keep_entry os base n t w in
        elim (Bool-cases (n == name)) [
          | inl y ↦
              let same : n ≡ name = (text_beq_iff n name).0 y in
              let c : Counted r.0 =
                subst (λ m. Counted (keep_entry os base m t w).0) (sym same)
                  (keep_entry-Counted t w h) in
              let g = keep_entries-Grows ns r.0 r.1 in
              (omega (arith, c.0, g.0), omega (arith, c.1, g.1))
          | inr d ↦
              keep_entries-Counted ns r.0 r.1 l.1 ((keep_entry-Spared n t w l.0 h).2 ∙ h)
                (rw d at i)
        ]

    kept_result-Spared :
        (t : Tally) (st : Fz World)
        → Counted t
        → SameTree os st.world (kept_result os uid t st).1.world
    unfolding kept_result protect_oom
    kept_result-Spared t st c =
        let f : (t.found == 0) ≡ false = ground (arith, c.1) in
        let k : (t.kept == 0) ≡ false = ground (arith, c.0) in
        elim (Bool-cases t.frozen_any) [
          | inl b ↦ rw (f, k, b) (protect_each-SameTree os laws (uid_pids os uid st.world) st)
          | inr b ↦ rw (f, k, b) (λ d l. refl, λ u. refl)
        ]

    keep_in_lem :
        (names : List Text) (st : Fz World)
        → All (λ n. Lacks b'/' n) names
        → any (λ n. n == name) names ≡ true
        → is_push_proc os pid st.world ≡ true
        → let after = (keep_in os uid (some names) st).1.world in
          (read (freeze_file (under base name)) after
            ≡ read (freeze_file (under base name)) st.world)
          × (read (freeze_file base) after ≡ read (freeze_file base) st.world)
    unfolding keep_in
    keep_in_lem names st l i h =
        let out = keep_entries os base names no_tally st.world in
        let s = keep_entries-Spared names no_tally st.world l h in
        let same =
          kept_result-Spared out.0 (record st { world = out.1 })
            (keep_entries-Counted names no_tally st.world l h i) in
        (same.0 (under base name) level ∙ s.0, same.0 base (IsLevel.app uid) ∙ s.1)

    -- Where the cgroup.freeze files of the apps and their process entries are as the kernel
    -- documents them, and an entry that the directory of the uid lists, with a name that has no
    -- slash, is that of a process of the push kind, the selective freeze of the directory leaves
    -- the freezer's file of that entry and that of the uid as they read before.
    pub keep_in-spares_push :
        (names : List Text) (st : Fz World)
        → dir base st.world ≡ some names
        → any (λ n. n == name) names ≡ true
        → is_push_proc os pid st.world ≡ true
        → let after = (keep_in os uid (dir base st.world) st).1.world in
          (read (freeze_file (under base name)) after
            ≡ read (freeze_file (under base name)) st.world)
          × (read (freeze_file base) after ≡ read (freeze_file base) st.world)
    keep_in-spares_push names st e i h =
        let l =
          subst (λ o. All (λ n. Lacks b'/' n) (or_empty o)) e (laws.plain_names uid st.world) in
        rw e (keep_in_lem names st l i h)
