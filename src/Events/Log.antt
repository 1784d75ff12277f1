-- ===== src/Events/Log.antt =====
-- The log file of the events: `append_jsonl` and `rotate_jsonl` of daemon/src/events.rs, over an
-- interface of the file system.
pub mod Laws
use sundown.Base.{
  ◌-◌, ℕ, zero, suc, ◌*◌, Bool, true, false, not, Option, none, some, ◌++◌, Text, str, leb,
  show_nat, if◌then◌else◌,
}

-- `create_dir_all` of the parent, the length of a file, `rename`, and a write behind the end of a
-- file that is created where it is missing
pub record Files : Type 1 where
  pub Fs : Type 0
  pub create_parent : Text → Fs → Bool × Fs
  pub size : Text → Fs → Option ℕ
  pub rename : Text → Text → Fs → Fs
  pub append : Text → Text → Fs → Bool × Fs

abbrev max_event_logs : ℕ
max_event_logs = 3

abbrev event_log_rotate_bytes : ℕ
event_log_rotate_bytes = 2 * 1024 * 1024

unfoldable pub numbered : Text → ℕ → Text
numbered path i = path ++ (str "." ++ show_nat i)

abbrev pub is_full : Option ℕ → Bool
is_full none = false
is_full (some n) = leb event_log_rotate_bytes n

module _ (files : Files) where
  open files use {Fs, create_parent, size, rename, append}

  -- the loop of rotate_jsonl, from the number `n` down to 1
  unfoldable pub shift_logs : ℕ → Text → Fs → Fs
  unfolding numbered
  shift_logs zero path fs = fs
  shift_logs (suc n) path fs =
      shift_logs n path (rename (numbered path (suc n)) (numbered path (suc (suc n))) fs)

  unfoldable pub rotate_jsonl : Text → Fs → Fs
  unfolding numbered shift_logs
  rotate_jsonl path fs = rename path (numbered path 1) (shift_logs (max_event_logs - 1) path fs)

  -- append_jsonl, whether the text was written
  unfoldable pub append_jsonl : Text → Text → Fs → Bool × Fs
  unfolding rotate_jsonl
  append_jsonl path text fs =
      let made = create_parent path fs in
      let rotated = if is_full (size path made.1) then rotate_jsonl path made.1 else made.1 in
      if not made.0 then (false, made.1) else append path text rotated
