-- ===== src/Freezer/Act.antt =====
-- The actions of daemon/src/freezer.rs on a uid: freezing with its fallback to SIGSTOP, thawing of
-- both levels, and discarding.
pub mod Thaw
use sundown.Base.{
  ℕ, ◌+◌, suc, Bool, true, false, Option, none, some, List, [], ◌∷◌, ◌++◌, Text, str, ltb,
  if◌then◌else◌, strip_prefix,
}
use sundown.Freezer.{
  Os, Fz, Signal, stop, cont, kill, apps_dir, uid_dir, freeze_file, under, uid_freeze_path,
  is_pid_entry, uid_entry, or_empty, uid_pids, is_frozen_dir,
}
use sundown.Freezer.Oom.{protect_oom, restore_oom, counted}
use sundown.Freezer.Packages.{pkg_uid}
use sundown.Freezer.Warm.{madvise_warm_uid}

module _ (os : Os) where
  open os use {World, read, write, dir, signal}

  -- write_freeze; the throttle on its log lines is left out
  unfoldable pub write_freeze : Text → Text → World → Bool × World
  write_freeze path val w = write path val w

  unfoldable pub signal_each : Signal → List ℕ → World → ℕ × World
  signal_each sig [] w = (0, w)
  signal_each sig (pid ∷ pids) w =
      let r = signal pid sig w in
      let rest = signal_each sig pids r.1 in (counted r.0 rest.0, rest.1)

  unfoldable pub signal_uid : Signal → ℕ → Fz World → ℕ × Fz World
  unfolding signal_each
  signal_uid sig uid st =
      let out = signal_each sig (uid_pids os uid st.world) st.world in
      (out.0, record st { world = out.1 })

  -- sigstop_freeze_uid, sigcont_uid
  unfoldable pub sigstop_freeze_uid : ℕ → Fz World → ℕ × Fz World
  unfolding signal_uid
  sigstop_freeze_uid uid st = signal_uid stop uid st

  unfoldable pub sigcont_uid : ℕ → Fz World → ℕ × Fz World
  unfolding signal_uid
  sigcont_uid uid st = signal_uid cont uid st

  -- sigcont_all_apps
  abbrev cont_entry : Option ℕ → Fz World → ℕ × Fz World
  cont_entry none st = (0, st)
  cont_entry (some uid) st = sigcont_uid uid st

  unfoldable pub cont_entries : List Text → Fz World → ℕ × Fz World
  unfolding sigcont_uid
  cont_entries [] st = (0, st)
  cont_entries (name ∷ ns) st =
      let r = cont_entry (uid_entry name) st in
      let rest = cont_entries ns r.1 in (r.0 + rest.0, rest.1)

  unfoldable pub sigcont_all_apps : Fz World → ℕ × Fz World
  unfolding cont_entries
  sigcont_all_apps st = cont_entries (or_empty (dir apps_dir st.world)) st

  -- freeze_uid
  abbrev pub protected_if : ℕ → Bool × Fz World → Bool × Fz World
  protected_if uid (false, st) = (false, st)
  protected_if uid (true, st) = (true, (protect_oom os uid st).1)

  abbrev stopped : ℕ × Fz World → Bool × Fz World
  stopped (n, st) = (ltb 0 n, st)

  unfoldable pub freeze_or_stop : ℕ → Fz World → Bool × Fz World
  unfolding sigstop_freeze_uid write_freeze
  freeze_or_stop uid st =
      let r = write_freeze (uid_freeze_path uid) (str "1") st.world in
      let st1 = record st { world = r.1 } in
      if r.0 then (true, st1) else stopped (sigstop_freeze_uid uid st1)

  unfoldable pub freeze_uid : ℕ → Fz World → Bool × Fz World
  unfolding freeze_or_stop
  freeze_uid uid st = protected_if uid (freeze_or_stop uid st)

  -- the loop over the `pid_` entries of `unfreeze_uid`
  unfoldable pub thaw_entry : Text → Text → World → World
  unfolding write_freeze
  thaw_entry base name w =
      if is_pid_entry name then (write_freeze (freeze_file (under base name)) (str "0") w).1 else w

  unfoldable pub thaw_entries : Text → List Text → World → World
  unfolding thaw_entry
  thaw_entries base [] w = w
  thaw_entries base (name ∷ ns) w = thaw_entries base ns (thaw_entry base name w)

  -- unfreeze_uid_keep_oom
  unfoldable pub thaw_dir : Text → World → Bool × World
  unfolding thaw_entries write_freeze
  thaw_dir base w =
      let r = write_freeze (freeze_file base) (str "0") w in
      (r.0, thaw_entries base (or_empty (dir base r.1)) r.1)

  unfoldable pub unfreeze_uid_keep_oom : ℕ → Fz World → Bool × Fz World
  unfolding thaw_dir sigcont_uid
  unfreeze_uid_keep_oom uid st =
      let st1 = (madvise_warm_uid os uid st).1 in
      let r = thaw_dir (uid_dir uid) st1.world in
      (r.0, (sigcont_uid uid (record st1 { world = r.1 })).1)

  -- unfreeze_uid
  unfoldable pub unfreeze_uid : ℕ → Fz World → Bool × Fz World
  unfolding unfreeze_uid_keep_oom
  unfreeze_uid uid st = let r = unfreeze_uid_keep_oom uid st in (r.0, (restore_oom os uid r.1).1)

  -- discard_uid
  unfoldable pub discard_uid : ℕ → Fz World → ℕ × Fz World
  unfolding signal_uid unfreeze_uid
  discard_uid uid st = signal_uid kill uid (unfreeze_uid uid st).1

  -- freeze_pkg, unfreeze_pkg, unfreeze_pkg_keep_oom
  abbrev pub on_known : (ℕ → Fz World → Bool × Fz World) → Option ℕ × Fz World → Bool × Fz World
  on_known act (none, st) = (false, st)
  on_known act (some uid, st) = act uid st

  unfoldable pub freeze_pkg : Text → Fz World → Bool × Fz World
  freeze_pkg pkg st = on_known freeze_uid (pkg_uid os pkg st)

  unfoldable pub unfreeze_pkg : Text → Fz World → Bool × Fz World
  unfreeze_pkg pkg st = on_known unfreeze_uid (pkg_uid os pkg st)

  unfoldable pub unfreeze_pkg_keep_oom : Text → Fz World → Bool × Fz World
  unfreeze_pkg_keep_oom pkg st = on_known unfreeze_uid_keep_oom (pkg_uid os pkg st)

  -- thaw_all_residual: a directory is counted when its own file said so and was written
  unfoldable pub thaw_if_frozen : Text → World → Bool × World
  unfolding write_freeze
  thaw_if_frozen d w =
      if is_frozen_dir os d w then write_freeze (freeze_file d) (str "0") w else (false, w)

  unfoldable pub thaw_frozen_entries : Text → List Text → World → World
  unfolding thaw_if_frozen
  thaw_frozen_entries base [] w = w
  thaw_frozen_entries base (name ∷ ns) w =
      thaw_frozen_entries base ns
        (if is_pid_entry name then (thaw_if_frozen (under base name) w).1 else w)

  unfoldable pub thaw_residual_in : List Text → World → ℕ × World
  unfolding thaw_frozen_entries thaw_if_frozen
  thaw_residual_in [] w = (0, w)
  thaw_residual_in (name ∷ ns) w = elim (strip_prefix (str "uid_") name) [
    | none ↦ thaw_residual_in ns w
    | some _ ↦
        let base = under apps_dir name in
        let r = thaw_if_frozen base w in
        let rest = thaw_residual_in ns (thaw_frozen_entries base (or_empty (dir base r.1)) r.1) in
        (counted r.0 rest.0, rest.1)
  ]

  unfoldable pub thaw_all_residual : Fz World → ℕ × Fz World
  unfolding thaw_residual_in
  thaw_all_residual st =
      let out = thaw_residual_in (or_empty (dir apps_dir st.world)) st.world in
      (out.0, record st { world = out.1 })
