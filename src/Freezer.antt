-- ===== src/Freezer.antt =====
-- daemon/src/freezer.rs: the operating system as an interface, the state that the freezer keeps,
-- and what it reads of the cgroup tree. The children hold its actions and the proofs.
pub mod Warm
pub mod Packages
pub mod Oom
pub mod Cgroup
pub mod Act
pub mod Push
pub mod Vpn
pub mod Frozen
pub mod Fill
use sundown.Base.{
  ℕ, ◌++◌, Bool, true, false, ◌||◌, Option, none, some, List, [], ◌∷◌, Text, str, ◌==◌, nat_eq,
  text_eq, any, is_empty, not, lines, trim, strip_prefix, starts_with, parse_u32, show_nat, Map, ℤ,
  Instant, if◌then◌else◌,
}

pub data Signal : Type 0 where
  stop : Signal
  cont : Signal
  kill : Signal

-- The files, processes and clock of the device. A flag says whether a call succeeded.
pub record Os : Type 1 where
  pub World : Type 0
  -- fs::read_to_string, write, remove_file, read_dir (the names), read_link, the time of a change
  pub read : Text → World → Option Text
  pub write : Text → Text → World → Bool × World
  pub remove_file : Text → World → World
  pub dir : Text → World → Option (List Text)
  pub link : Text → World → Option Text
  pub mtime : Text → World → Option ℕ
  -- Instant::now, libc::kill, pidfd_open, process_madvise
  pub clock : World → Instant
  pub signal : ℕ → Signal → World → Bool × World
  pub pidfd_open : ℕ → World → Bool
  pub advise : ℕ → List (ℕ × ℕ) → World → Bool × World

-- The statics of freezer.rs beside the world: PKG_UID_CACHE, OOM_BACKUP, VPN_OWNER_CACHE.
pub record Fz (World : Type 0) : Type 0 where
  pub world : World
  pub pkg_uid_cache : Option (ℕ × Map Text ℕ)
  pub oom_backup : Map ℕ ℤ
  pub vpn_owner_cache : Option (Instant × Option ℕ)

-- the paths
abbrev pub apps_dir : Text
apps_dir = str "/sys/fs/cgroup/apps"

unfoldable pub under : Text → Text → Text
under d name = d ++ (str "/" ++ name)

abbrev pub uid_name : ℕ → Text
uid_name uid = str "uid_" ++ show_nat uid

unfoldable pub uid_dir : ℕ → Text
unfolding under
uid_dir uid = under apps_dir (uid_name uid)

unfoldable pub freeze_file : Text → Text
unfolding under
freeze_file d = under d (str "cgroup.freeze")

unfoldable pub procs_file : Text → Text
unfolding under
procs_file d = under d (str "cgroup.procs")

unfoldable pub proc_file : ℕ → Text → Text
unfolding under
proc_file pid name = under (under (str "/proc") (show_nat pid)) name

-- uid_freeze_path
abbrev pub uid_freeze_path : ℕ → Text
uid_freeze_path uid = freeze_file (uid_dir uid)

-- the number behind a prefix, as in `name[4..].parse::<u32>()`
abbrev pub number_behind : Option Text → Option ℕ
number_behind none = none
number_behind (some s) = parse_u32 s

unfoldable pub pid_entry : Text → Option ℕ
pid_entry name = number_behind (strip_prefix (str "pid_") name)

unfoldable pub uid_entry : Text → Option ℕ
uid_entry name = number_behind (strip_prefix (str "uid_") name)

abbrev pub is_pid_entry : Text → Bool
is_pid_entry name = starts_with (str "pid_") name

abbrev pub is_uid_entry : Text → Bool
is_uid_entry name = starts_with (str "uid_") name

abbrev pub or_empty : {A : Type 0} → Option (List A) → List A
or_empty none = []
or_empty (some l) = l

-- the test `s.trim() == "1"` on a file
abbrev pub says_one : Option Text → Bool
says_one none = false
says_one (some s) = trim s == str "1"

abbrev pub has_text : Option Text → Bool
has_text none = false
has_text (some s) = not (is_empty (trim s))

-- a file of process numbers holds the number
abbrev pub lists_pid : ℕ → Option Text → Bool
lists_pid pid none = false
lists_pid pid (some s) = any (λ l. trim l == show_nat pid) (lines s)

abbrev pub onto_parsed : Option ℕ → List ℕ → List ℕ
onto_parsed none l = l
onto_parsed (some n) l = n ∷ l

unfoldable pub numbers_of : List Text → List ℕ
numbers_of [] = []
numbers_of (l ∷ ls) = onto_parsed (parse_u32 (trim l)) (numbers_of ls)

abbrev pub file_numbers : Option Text → List ℕ
file_numbers none = []
file_numbers (some s) = numbers_of (lines s)

module _ (os : Os) where
  open os use {World, read, dir}

  -- the file of a directory says that it is frozen
  unfoldable pub is_frozen_dir : Text → World → Bool
  is_frozen_dir d w = says_one (read (freeze_file d) w)

  -- the process of an entry is still in its cgroup
  unfoldable pub owns : Text → ℕ → World → Bool
  owns d pid w = lists_pid pid (read (procs_file d) w)

  unfoldable pub owned_pid : Text → Text → Option ℕ → World → Option ℕ
  unfolding owns
  owned_pid base name none w = none
  owned_pid base name (some pid) w = if owns (under base name) pid w then some pid else none

  unfoldable pub listed_pids : Text → List Text → World → List ℕ
  unfolding owned_pid pid_entry
  listed_pids base [] w = []
  listed_pids base (name ∷ ns) w =
      onto_parsed (owned_pid base name (pid_entry name) w) (listed_pids base ns w)

  -- uid_pids
  unfoldable pub pids_in : Text → Option (List Text) → World → List ℕ
  unfolding listed_pids numbers_of
  pids_in base none w = []
  pids_in base (some names) w = listed_pids base names w ++ file_numbers (read (procs_file base) w)

  unfoldable pub uid_pids : ℕ → World → List ℕ
  unfolding pids_in
  uid_pids uid w = pids_in (uid_dir uid) (dir (uid_dir uid) w) w

  -- is_uid_frozen
  abbrev frozen_state : Option Text → Option Bool
  frozen_state none = none
  frozen_state (some s) = some (trim s == str "1")

  unfoldable pub is_uid_frozen : ℕ → World → Option Bool
  is_uid_frozen uid w = frozen_state (read (uid_freeze_path uid) w)

  -- uid_has_procs
  unfoldable pub entry_has_procs : Text → World → Text → Bool
  entry_has_procs base w name =
      if is_pid_entry name then has_text (read (procs_file (under base name)) w) else false

  unfoldable pub procs_in : Text → Option (List Text) → World → Bool
  unfolding entry_has_procs
  procs_in base none w = false
  procs_in base (some names) w =
      any (entry_has_procs base w) names || has_text (read (procs_file base) w)

  unfoldable pub uid_has_procs : ℕ → World → Bool
  unfolding procs_in
  uid_has_procs uid w = procs_in (uid_dir uid) (dir (uid_dir uid) w) w

  -- uid_has_frozen_procs
  unfoldable pub entry_frozen : Text → World → Text → Bool
  unfolding is_frozen_dir
  entry_frozen base w name = if is_pid_entry name then is_frozen_dir (under base name) w else false

  unfoldable pub has_frozen : Text → World → Bool
  unfolding entry_frozen
  has_frozen base w = is_frozen_dir base w || any (entry_frozen base w) (or_empty (dir base w))

  unfoldable pub uid_has_frozen_procs : ℕ → World → Bool
  unfolding has_frozen
  uid_has_frozen_procs uid w = has_frozen (uid_dir uid) w

  -- frozen_uids: the uid of each directory in which the same two levels say so
  unfoldable pub frozen_in : List Text → World → List ℕ
  unfolding has_frozen uid_entry
  frozen_in [] w = []
  frozen_in (name ∷ ns) w =
      let rest = frozen_in ns w in
      if has_frozen (under apps_dir name) w then onto_parsed (uid_entry name) rest else rest

  unfoldable pub frozen_uids : World → List ℕ
  unfolding frozen_in
  frozen_uids w = frozen_in (or_empty (dir apps_dir w)) w
