-- ===== src/Engine/System.antt =====
-- What the engine calls outside itself, as an interface: the clocks, the freezer
-- (daemon/src/freezer.rs), the kernel's counters, and the configuration files. `Sys` is the state
-- of all that. An operation that may change it returns it; a query reads it. A query does not
-- advance the clock: two reads with no operation between them give the same instant.
use sundown.Base.{ℕ, Bool, Option, List, Text, Instant}
use sundown.Events.{Event}
use sundown.Policy.{Policy}
use sundown.Preset.{PresetTable}
use sundown.Rules.{Date, RuleTable}

pub record System : Type 1 where
  pub Sys : Type 0
  -- Instant::now, the epoch second of a time stamp, `today_ymd`, `now_minutes`
  pub now : Sys → Instant
  pub epoch_secs : Sys → ℕ
  pub today : Sys → Option Date
  pub now_minutes : Sys → Option ℕ
  -- freezer::pkg_uid, uid_has_procs, uid_has_frozen_procs, is_vpn_owner
  pub pkg_uid : Text → Sys → Option ℕ
  pub uid_has_procs : ℕ → Sys → Bool
  pub uid_has_frozen_procs : ℕ → Sys → Bool
  pub is_vpn_owner : ℕ → Sys → Bool
  -- the freezer's actions; the flag is the result of the write, the number counts processes
  pub unfreeze_pkg : Text → Sys → Bool × Sys
  pub unfreeze_pkg_keep_oom : Text → Sys → Bool × Sys
  pub unfreeze_uid_keep_oom : ℕ → Sys → Bool × Sys
  pub freeze_pkg_keep_push : Text → Sys → Bool × Sys
  pub freeze_pkg_kill_push : Text → Sys → Bool × Sys
  pub protect_oom : ℕ → Sys → ℕ × Sys
  pub restore_oom_pkg : Text → Sys → Bool × Sys
  pub discard_uid : ℕ → Sys → ℕ × Sys
  -- freezer::frozen_uids, unfreeze_uid, read_frozen_state, clear_frozen_state
  pub frozen_uids : Sys → List ℕ
  pub unfreeze_uid : ℕ → Sys → Bool × Sys
  pub read_frozen_state : Sys → List (Text × ℕ)
  pub clear_frozen_state : Sys → Sys
  -- NetSampler::uid_bytes, uid_rss_kb, mem_available_kb, pkg_is_cache_adj, boot_completed
  pub uid_bytes : ℕ → Sys → Option ℕ
  pub uid_rss_kb : ℕ → Sys → ℕ
  pub mem_available_kb : Sys → Option ℕ
  pub pkg_is_cache_adj : Text → Sys → Bool
  pub boot_completed : Sys → Bool
  -- Policy::load, RuleTable::load, PresetTable::load; the lines of `pm list packages -f`;
  -- resolve_media_uid
  pub load_policy : Sys → Option Policy
  pub load_rules : Sys → Option RuleTable
  pub load_presets : Sys → PresetTable
  pub list_packages : Sys → Option (List Text)
  pub media_uid_of : Sys → Option ℕ
  -- the files that the engine writes: the frozen set, and the event log
  pub write_frozen_state : List (Text × ℕ) → Sys → Bool × Sys
  pub append_events : List Event → Sys → Bool × Sys
