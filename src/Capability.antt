-- ===== src/Capability.antt =====
-- daemon/src/capability.rs: what the device can do, over the interface of freezer.rs and the test
-- for a file.
pub mod Laws
use sundown.Base.{
  ℕ, Bool, true, false, Option, none, some, List, [], ◌∷◌, map, Text, str, text_le, sort_by,
  filterb, starts_with, or_else, unwrap_or, ◌&&◌, if◌then◌else◌,
}
use sundown.Freezer.{Os, apps_dir, under, freeze_file, uid_dir}
use sundown.Freezer.Warm.{probe_madvise_willneed}

pub data FreezerLevel : Type 0 where
  missing : FreezerLevel
  v1 : FreezerLevel
  uid_v2 : FreezerLevel
  pid_v2 : FreezerLevel

-- FreezerLevel::as_str
abbrev pub level_text : FreezerLevel → Text
level_text missing = str "none"
level_text v1 = str "v1_freezer"
level_text uid_v2 = str "uid_v2"
level_text pid_v2 = str "pid_v2"

pub record Capability : Type 0 where
  pub freezer : FreezerLevel
  pub cgroup_v2 : Bool
  pub freezer_uid_path : Option Text
  pub freezer_pid_path : Option Text
  pub freezer_v1_path : Option Text
  pub madvise_willneed : Bool
  pub net_source : Text
  pub probed_at : ℕ

-- classify
unfoldable pub classify : Bool → Bool → Bool → Bool → FreezerLevel
classify cgroup_v2 uid_ok pid_ok v1_ok =
    if uid_ok then uid_v2 else if pid_ok then pid_v2 else if v1_ok then v1 else missing

abbrev pub is_there : Option Text → Bool
is_there none = false
is_there (some p) = true

abbrev probe_uid : ℕ
probe_uid = 10000

abbrev v1_state : Text
v1_state = str "/sys/fs/cgroup/freezer/freezer.state"

abbrev path_if : Bool → Text → Option Text
path_if true p = some p
path_if false p = none

-- `Path::exists`
module _ (os : Os) (exists : Text → os.World → Bool) where
  open os use {World, dir}

  -- the first entry of a process with a freezer file
  unfoldable pub first_pid : Text → List Text → World → Option Text
  first_pid d [] w = none
  first_pid d (n ∷ ns) w =
      let rest = first_pid d ns w in
      let p = freeze_file (under d n) in
      if starts_with (str "pid_") n && exists p w then some p else rest

  -- the first directory of a uid with a freezer file, and such an entry in it
  unfoldable pub first_uid : List Text → World → Option Text × Option Text
  unfolding first_pid
  first_uid [] w = (none, none)
  first_uid (d ∷ ds) w =
      let rest = first_uid ds w in
      if exists (freeze_file d) w
      then (some (freeze_file d), first_pid d (unwrap_or (dir d w) []) w)
      else rest

  unfoldable pub uid_dirs : World → List Text
  uid_dirs w = sort_by text_le (
      map (λ n. under apps_dir n)
        (filterb (λ n. starts_with (str "uid_") n) (unwrap_or (dir apps_dir w) [])))

  -- the path of the probed uid, where no directory has one
  unfoldable pub fallback : Option Text → World → Option Text
  fallback found w =
      let p = freeze_file (uid_dir probe_uid) in or_else found (path_if (exists p w) p)

  -- probe; the process of the daemon and the epoch second are arguments
  unfoldable pub probe : Text → ℕ → ℕ → World → Capability × World
  unfolding first_uid uid_dirs fallback classify
  probe net_source self_pid unix_now w =
      let cgroup_v2 = exists (str "/sys/fs/cgroup/cgroup.controllers") w in
      let paths = first_uid (uid_dirs w) w in
      let uid_path = fallback paths.0 w in
      let v1_ok = exists v1_state w in
      let advised = probe_madvise_willneed os self_pid w in
      (
        record {
          freezer = classify cgroup_v2 (is_there uid_path) (is_there paths.1) v1_ok;
          cgroup_v2 = cgroup_v2;
          freezer_uid_path = uid_path;
          freezer_pid_path = paths.1;
          freezer_v1_path = path_if v1_ok v1_state;
          madvise_willneed = advised.0;
          net_source = net_source;
          probed_at = unix_now;
        },
        advised.1,
      )
