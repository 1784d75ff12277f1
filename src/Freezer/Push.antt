-- ===== src/Freezer/Push.antt =====
-- The `:push` processes of daemon/src/freezer.rs: they are told by their name, kept by the
-- selective freeze, or killed by the other one.
pub mod Keep
mod Paths
use sundown.Base.{
  ℕ, suc, Bool, true, false, not, ◌&&◌, ◌||◌, Option, none, some, List, [], ◌∷◌, Text, str, ◌==◌,
  nat_eq, text_eq, leb, ◌+◌, split, map, if◌then◌else◌,
}
use sundown.Freezer.{
  Os, Fz, kill, uid_dir, freeze_file, under, proc_file, pid_entry, is_pid_entry, or_empty, owns,
}
use sundown.Freezer.Act.{write_freeze, freeze_uid}
use sundown.Freezer.Oom.{protect_oom}
use sundown.Freezer.Packages.{pkg_uid}

abbrev lower : ℕ → ℕ
lower c = if leb 65 c && leb c 90 then c + 32 else c

-- what stands behind the last colon
abbrev later_colon : ℕ → Text → Option Text → Option Text
later_colon c s none = if c == b':' then some s else none
later_colon c s (some t) = some t

unfoldable pub behind_colon : Text → Option Text
behind_colon [] = none
behind_colon (c ∷ s) = later_colon c s (behind_colon s)

abbrev is_push_word : Text → Bool
is_push_word l = l == str "push" || l == str "msf" || l == str "channel" || l == str "pull"

abbrev push_suffix : Option Text → Bool
push_suffix none = false
push_suffix (some s) = is_push_word (map lower s)

-- is_push_cmdline
unfoldable pub is_push_cmdline : Text → Bool
unfolding behind_colon
is_push_cmdline arg = push_suffix (behind_colon arg)

abbrev first_part : List Text → Bool
first_part [] = false
first_part (p ∷ ps) = is_push_cmdline p

abbrev push_text : Option Text → Bool
push_text none = false
push_text (some text) = first_part (split 0 text)

-- the counters of `freeze_pkg_keep_push`
pub record Tally : Type 0 where
  pub found : ℕ
  pub frozen_any : Bool
  pub kept : ℕ

abbrev pub no_tally : Tally
no_tally = record { found = 0; frozen_any = false; kept = 0 }

module _ (os : Os) where
  open os use {World, read, dir, signal}

  -- is_push_proc
  unfoldable pub is_push_proc : ℕ → World → Bool
  unfolding is_push_cmdline
  is_push_proc pid w = push_text (read (proc_file pid (str "cmdline")) w)

  -- one round of `freeze_pkg_keep_push`
  abbrev pub wrote_one : Bool × World → Tally → Tally × World
  wrote_one r t = (record t { frozen_any = r.0 || t.frozen_any }, r.1)

  unfoldable pub keep_pid : Text → Option ℕ → Tally → World → Tally × World
  keep_pid d none t w = (t, w)
  keep_pid d (some pid) t w =
      if is_push_proc pid w
      then (record t { kept = suc t.kept }, w)
      else wrote_one (write_freeze os (freeze_file d) (str "1") w) t

  unfoldable pub keep_entry : Text → Text → Tally → World → Tally × World
  unfolding keep_pid pid_entry
  keep_entry base name t w =
      if is_pid_entry name
      then keep_pid (under base name) (pid_entry name) (record t { found = suc t.found }) w
      else (t, w)

  unfoldable pub keep_entries : Text → List Text → Tally → World → Tally × World
  unfolding keep_entry
  keep_entries base [] t w = (t, w)
  keep_entries base (name ∷ ns) t w =
      let r = keep_entry base name t w in keep_entries base ns r.0 r.1

  -- its end: back to the whole uid where nothing was found or nothing was frozen or kept
  unfoldable pub kept_result : ℕ → Tally → Fz World → Bool × Fz World
  kept_result uid t st =
      if t.found == 0
      then freeze_uid os uid st
      else if not t.frozen_any && t.kept == 0
      then freeze_uid os uid st
      else if t.frozen_any
      then (true, (protect_oom os uid st).1)
      else (false, st)

  unfoldable pub keep_in : ℕ → Option (List Text) → Fz World → Bool × Fz World
  unfolding keep_entries kept_result
  keep_in uid none st = freeze_uid os uid st
  keep_in uid (some names) st =
      let out = keep_entries (uid_dir uid) names no_tally st.world in
      kept_result uid out.0 (record st { world = out.1 })

  abbrev keep_known : Option ℕ × Fz World → Bool × Fz World
  keep_known (none, st) = (false, st)
  keep_known (some uid, st) = keep_in uid (dir (uid_dir uid) st.world) st

  -- freeze_pkg_keep_push
  unfoldable pub freeze_pkg_keep_push : Text → Fz World → Bool × Fz World
  unfolding keep_in
  freeze_pkg_keep_push pkg st = keep_known (pkg_uid os pkg st)

  -- kill_push_procs
  unfoldable pub kill_pid : Text → Option ℕ → World → World
  kill_pid d none w = w
  kill_pid d (some pid) w =
      if is_push_proc pid w && owns os d pid w then (signal pid kill w).1 else w

  unfoldable pub kill_entries : Text → List Text → World → World
  unfolding kill_pid pid_entry
  kill_entries base [] w = w
  kill_entries base (name ∷ ns) w =
      kill_entries base ns (kill_pid (under base name) (pid_entry name) w)

  unfoldable pub kill_push_procs : ℕ → Fz World → Fz World
  unfolding kill_entries
  kill_push_procs uid st =
      let base = uid_dir uid in
      record st { world = kill_entries base (or_empty (dir base st.world)) st.world }

  abbrev kill_known : Option ℕ × Fz World → Bool × Fz World
  kill_known (none, st) = (false, st)
  kill_known (some uid, st) = freeze_uid os uid (kill_push_procs uid st)

  -- freeze_pkg_kill_push
  unfoldable pub freeze_pkg_kill_push : Text → Fz World → Bool × Fz World
  unfolding kill_push_procs
  freeze_pkg_kill_push pkg st = kill_known (pkg_uid os pkg st)
