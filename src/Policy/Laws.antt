-- ===== src/Policy/Laws.antt =====
-- The time of the grace, and what the readers of policy.toml accept.
use sundown.Base.{
  ◌*◌, ℕ, ◌≤◌, ◌<◌, ◌-◌, min, ◌^◌, ◌&&◌, ◌≡◌, refl, arith, Option, none, some, Text, text_eq, leb,
}
use sundown.Policy.{AppMode, AppPolicy, effective_grace, saturating_mul, in_window}
use sundown.Policy.Parse.{parse_hhmm, parse_window}

-- the time to wait, by the override and the mode; twice the global time ends at the largest
-- number of 64 bits
abbrev GraceOutcome : Option ℕ → AppMode → ℕ → ℕ → Type 0
GraceOutcome (some g) mode global wait = wait ≡ g
GraceOutcome none AppMode.strict global wait = wait ≡ 8
GraceOutcome none AppMode.important global wait = wait ≡ min (global * 2) (2 ^ 64 - 1)
GraceOutcome none _ global wait = wait ≡ global

effective_grace_lem :
    (p : AppPolicy) (global : ℕ)
    → GraceOutcome p.grace_override p.mode global (effective_grace p global)
unfolding effective_grace saturating_mul
effective_grace_lem p global = ground arith

-- A time of day that is read is one.
pub parse_hhmm_bounds : (s : Text) (m : ℕ) → parse_hhmm s ≡ some m → m < 1440
unfolding parse_hhmm
parse_hhmm_bounds s m h = ground arith

-- An unfreeze window that is read ends in the day it starts in, after its start, and the minutes
-- in it are those from its first to its last.
pub parse_window_lem :
    (s : Text) (a b : ℕ)
    → parse_window s ≡ some (a, b)
    → (a ≤ b) × (b < 1440) × ((m : ℕ) → in_window m (some (a, b)) ≡ (leb a m && leb m b))
unfolding parse_window in_window parse_hhmm
parse_window_lem s a b h = (ground arith, ground arith, λ m. refl)
