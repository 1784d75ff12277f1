-- ===== src/Freezer/Oom.antt =====
-- The OOM protection of daemon/src/freezer.rs: the score of each process of a uid is locked at
-- -1000, its first value kept in OOM_BACKUP, and put back by `restore_oom`.
pub mod Backup
pub mod Numbers
pub mod Scores
use sundown.Base.{
  ℕ, zero, suc, ◌-◌, ◌^◌, ◌≤◌, ◌<◌, Bool, true, false, ◌&&◌, Option, none, some, List, [], ◌∷◌,
  ◌++◌, Text, str, ◌==◌, nat_eq, text_eq, trim, number, show_nat, Map, get, insert, remove,
  contains_key, ltb, leb, ℤ, pos, negsuc, pos_part, neg_part, if◌then◌else◌,
}
use sundown.Freezer.{Os, Fz, proc_file, uid_pids}
use sundown.Freezer.Packages.{pkg_uid}

-- `i32::from_str` and `i32::to_string`
abbrev at_most : ℕ → Option ℕ → Option ℕ
at_most bound none = none
at_most bound (some n) = if leb n bound then some n else none

abbrev negated : Option ℕ → Option ℤ
negated none = none
negated (some zero) = some (pos 0)
negated (some (suc n)) = some (negsuc n)

abbrev positive : Option ℕ → Option ℤ
positive none = none
positive (some n) = some (pos n)

unfoldable pub parse_i32 : Text → Option ℤ
unfolding number
parse_i32 [] = none
parse_i32 (c ∷ s) =
    if c == 45
    then negated (at_most (2 ^ 31) (number s))
    else if c == 43
    then positive (at_most (2 ^ 31 - 1) (number s))
    else positive (at_most (2 ^ 31 - 1) (number (c ∷ s)))

unfoldable pub show_int : ℤ → Text
show_int (pos n) = show_nat n
show_int (negsuc n) = 45 ∷ show_nat (suc n)

-- OOM_PROTECT
abbrev pub oom_protect : ℤ
oom_protect = negsuc 999

-- the scores that the kernel takes, from -1000 to 1000
abbrev pub IsScore : ℤ → Type 0
IsScore (pos n) = n ≤ 1000
IsScore (negsuc n) = n < 1000

abbrev pub same_int : ℤ → ℤ → Bool
same_int a b = pos_part a == pos_part b && neg_part a == neg_part b

abbrev pub parsed_adj : Option Text → Option ℤ
parsed_adj none = none
parsed_adj (some s) = parse_i32 (trim s)

abbrev pub adj_file : ℕ → Text
adj_file pid = proc_file pid (str "oom_score_adj")

abbrev pub counted : Bool → ℕ → ℕ
counted ok n = if ok then suc n else n

-- the first value of a process is recorded
unfoldable pub note_backup : ℕ → ℤ → Map ℕ ℤ → Map ℕ ℤ
note_backup pid cur m = if contains_key pid m then m else insert pid cur m

-- the records that `restore_oom` removes at its end
unfoldable pub drop_each : List ℕ → Map ℕ ℤ → Map ℕ ℤ
drop_each [] m = m
drop_each (pid ∷ pids) m = drop_each pids (remove pid m)

module _ (os : Os) where
  open os use {World, read, write}

  unfoldable pub read_oom_adj : ℕ → World → Option ℤ
  unfolding parse_i32
  read_oom_adj pid w = parsed_adj (read (adj_file pid) w)

  unfoldable pub write_oom_adj : ℕ → ℤ → World → Bool × World
  unfolding show_int
  write_oom_adj pid val w = write (adj_file pid) (show_int val) w

  -- one round of `protect_oom`
  abbrev pub locked : ℕ → ℤ → Bool × World → Fz World → Bool × Fz World
  locked pid cur (false, w) st = (false, record st { world = w })
  locked pid cur (true, w) st =
      (true, record st { world = w; oom_backup = note_backup pid cur st.oom_backup })

  unfoldable pub protect_found : ℕ → Option ℤ → Fz World → Bool × Fz World
  unfolding note_backup write_oom_adj
  protect_found pid none st = (false, st)
  protect_found pid (some cur) st =
      if same_int cur oom_protect
      then (false, st)
      else locked pid cur (write_oom_adj pid oom_protect st.world) st

  unfoldable pub protect_pid : ℕ → Fz World → Bool × Fz World
  unfolding protect_found read_oom_adj
  protect_pid pid st = protect_found pid (read_oom_adj pid st.world) st

  unfoldable pub protect_each : List ℕ → Fz World → ℕ × Fz World
  unfolding protect_pid
  protect_each [] st = (0, st)
  protect_each (pid ∷ pids) st =
      let r = protect_pid pid st in let rest = protect_each pids r.1 in (counted r.0 rest.0, rest.1)

  unfoldable pub protect_oom : ℕ → Fz World → ℕ × Fz World
  unfolding protect_each
  protect_oom uid st = protect_each (uid_pids os uid st.world) st

  -- `restore_oom`: every recorded process is written, and its record removed at the end
  abbrev pub restored : ℕ → Option ℤ → World → Bool × World
  restored pid none w = (false, w)
  restored pid (some orig) w = write_oom_adj pid orig w

  unfoldable pub restore_each : List ℕ → Map ℕ ℤ → World → ℕ × World
  unfolding write_oom_adj
  restore_each [] m w = (0, w)
  restore_each (pid ∷ pids) m w =
      let r = restored pid (get pid m) w in
      let rest = restore_each pids m r.1 in (counted r.0 rest.0, rest.1)

  unfoldable pub restore_oom : ℕ → Fz World → ℕ × Fz World
  unfolding restore_each drop_each
  restore_oom uid st =
      let pids = uid_pids os uid st.world in
      let out = restore_each pids st.oom_backup st.world in
      (out.0, record st { world = out.1; oom_backup = drop_each pids st.oom_backup })

  -- restore_oom_pkg
  abbrev restore_known : Option ℕ × Fz World → Bool × Fz World
  restore_known (none, st) = (false, st)
  restore_known (some uid, st) = let out = restore_oom uid st in (ltb 0 out.0, out.1)

  unfoldable pub restore_oom_pkg : Text → Fz World → Bool × Fz World
  unfolding restore_oom
  restore_oom_pkg pkg st = restore_known (pkg_uid os pkg st)
