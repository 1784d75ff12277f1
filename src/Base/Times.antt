-- ===== src/Base/Times.antt =====
-- `Instant` and `Duration` in nanoseconds. `duration_since` saturates at zero, as `-` does.
use Prim.Native.Nat.{ℕ, ◌*◌}

abbrev pub Instant : Type 0
Instant = ℕ

-- Duration::from_secs
abbrev pub from_secs : ℕ → ℕ
from_secs s = s * 1000000000
