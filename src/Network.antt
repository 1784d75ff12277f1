-- ===== src/Network.antt =====
-- The traffic sampler of daemon/src/network.rs: the baseline of each uid and the two tests on it.
-- The counter of a uid (`uid_bytes`, read from kernel sources) and the clock are arguments.
pub mod Laws
use sundown.Base.{
  ℕ, ◌*◌, ◌-◌, Bool, false, ◌&&◌, Option, none, some, Map, get, insert, nat_eq, leb, ltb, Instant,
  from_secs,
}

-- `NetSampler::last`: uid → (bytes, instant) of the last sample
abbrev pub Baselines : Type 0
Baselines = Map ℕ (ℕ × Instant)

abbrev pub default_threshold : ℕ
default_threshold = 256 * 1024

abbrev pub default_window : ℕ
default_window = from_secs 30

abbrev grown : Option (ℕ × Instant) → (ℕ → Bool) → ℕ → Instant → ℕ → Bool
grown none test bytes now window = false
grown (some (prev, at)) test bytes now window = leb window (now - at) && test (bytes - prev)

-- NetSampler::is_active
unfoldable pub is_active : Baselines → ℕ → Option ℕ → Instant → ℕ → ℕ → Bool × Baselines
is_active last uid none now window threshold = (false, last)
is_active last uid (some bytes) now window threshold =
    (grown (get uid last) (leb threshold) bytes now window, insert uid (bytes, now) last)

-- NetSampler::is_active_any
unfoldable pub is_active_any : Baselines → ℕ → Option ℕ → Instant → ℕ → Bool × Baselines
is_active_any last uid none now window = (false, last)
is_active_any last uid (some bytes) now window =
    (grown (get uid last) (ltb 0) bytes now window, insert uid (bytes, now) last)
