-- ===== src/Freezer/Packages.antt =====
-- The lookups of daemon/src/freezer.rs by name: the uid of a package with its cache, the uid of a
-- process, and the frozen set that the last session left.
pub mod Cache
pub mod Stored
use sundown.Base.{
  ℕ, Bool, ◌++◌, Option, none, some, List, [], ◌∷◌, Text, str, ◌==◌, nat_eq, text_eq, lines, words,
  trim, is_empty, split_once, strip_prefix, parse_u32, show_nat, Map, get, insert, if◌then◌else◌,
}
use sundown.Freezer.{Os, Fz, proc_file, number_behind}

abbrev pub packages_list : Text
packages_list = str "/data/system/packages.list"

abbrev pub state_frozen_file : Text
state_frozen_file = str "/data/adb/sundown/state/frozen.state"

-- a line of packages.list; a later line of a package replaces an earlier one
abbrev with_uid : Text → Option ℕ → Map Text ℕ → Map Text ℕ
with_uid pkg none m = m
with_uid pkg (some uid) m = insert pkg uid m

abbrev add_package : List Text → Map Text ℕ → Map Text ℕ
add_package (pkg ∷ uid ∷ rest) m = with_uid pkg (parse_u32 uid) m
add_package _ m = m

unfoldable pub add_lines : List Text → Map Text ℕ → Map Text ℕ
add_lines [] m = m
add_lines (l ∷ ls) m = add_lines ls (add_package (words l) m)

abbrev pub packages_of : Option Text → Map Text ℕ
packages_of none = []
packages_of (some text) = add_lines (lines text) []

-- pid_uid: the second field behind `Uid:`, or the first where it stands alone
abbrev uid_field : List Text → Option ℕ
uid_field [] = none
uid_field (real ∷ []) = parse_u32 real
uid_field (real ∷ effective ∷ rest) = parse_u32 effective

unfoldable pub uid_line : List Text → Option ℕ
uid_line [] = none
uid_line (l ∷ ls) = elim (strip_prefix (str "Uid:") l) [
  | none ↦ uid_line ls
  | some rest ↦ elim (words rest) [ [] ↦ uid_line ls | ◌∷◌ f fs ↦ uid_field (f ∷ fs) ]
]

abbrev uid_of_status : Option Text → Option ℕ
uid_of_status none = none
uid_of_status (some text) = uid_line (lines text)

-- read_frozen_state, and the text that `persist_frozen_if_changed` of engine.rs writes
abbrev onto_stored : Text → Option ℕ → List (Text × ℕ) → List (Text × ℕ)
onto_stored pkg none l = l
onto_stored pkg (some uid) l = (pkg, uid) ∷ l

abbrev stored_entry : Option (Text × Text) → List (Text × ℕ) → List (Text × ℕ)
stored_entry none l = l
stored_entry (some (pkg, uid)) l = onto_stored (trim pkg) (parse_u32 (trim uid)) l

unfoldable pub stored_lines : List Text → List (Text × ℕ)
stored_lines [] = []
stored_lines (line ∷ ls) =
    let l = trim line in
    let rest = stored_lines ls in if is_empty l then rest else stored_entry (split_once b':' l) rest

abbrev pub stored_of : Option Text → List (Text × ℕ)
stored_of none = []
stored_of (some text) = stored_lines (lines text)

unfoldable pub stored_text : List (Text × ℕ) → Text
stored_text [] = []
stored_text ((p, u) ∷ snap) = (p ++ (b':' ∷ show_nat u)) ++ (10 ∷ stored_text snap)

module _ (os : Os) where
  open os use {World, read, write, remove_file, mtime}

  -- read_packages_list
  unfoldable pub read_packages_list : World → Map Text ℕ
  unfolding add_lines
  read_packages_list w = packages_of (read packages_list w)

  -- pkg_uid: the cache holds for one time of change
  unfoldable pub reread : Text → ℕ → Fz World → Option ℕ × Fz World
  reread pkg time st =
      let m = read_packages_list st.world in
      (get pkg m, record st { pkg_uid_cache = some (time, m) })

  unfoldable pub cached : Text → ℕ → Option (ℕ × Map Text ℕ) → Fz World → Option ℕ × Fz World
  unfolding reread
  cached pkg time none st = reread pkg time st
  cached pkg time (some (at, m)) st = if at == time then (get pkg m, st) else reread pkg time st

  unfoldable pub looked_up : Text → Option ℕ → Fz World → Option ℕ × Fz World
  unfolding cached
  looked_up pkg none st = (none, st)
  looked_up pkg (some time) st = cached pkg time st.pkg_uid_cache st

  unfoldable pub pkg_uid : Text → Fz World → Option ℕ × Fz World
  unfolding looked_up
  pkg_uid pkg st = looked_up pkg (mtime packages_list st.world) st

  -- pid_uid
  unfoldable pub pid_uid : ℕ → World → Option ℕ
  unfolding uid_line
  pid_uid pid w = uid_of_status (read (proc_file pid (str "status")) w)

  -- read_frozen_state, clear_frozen_state
  unfoldable pub read_frozen_state : World → List (Text × ℕ)
  unfolding stored_lines
  read_frozen_state w = stored_of (read state_frozen_file w)

  unfoldable pub clear_frozen_state : World → World
  clear_frozen_state w = remove_file state_frozen_file w

  -- the write of `persist_frozen_if_changed`
  unfoldable pub write_frozen_state : List (Text × ℕ) → World → Bool × World
  unfolding stored_text
  write_frozen_state snap w = write state_frozen_file (stored_text snap) w
