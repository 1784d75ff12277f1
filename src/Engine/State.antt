-- ===== src/Engine/State.antt =====
-- `EngineState` of daemon/src/engine.rs, and the pair of it with the system that every handler
-- runs on. Log lines (logi!, logw!) are not modelled; structured events are.
use sundown.Base.{ℕ, Bool, false, Option, none, List, [], Text, Map, Instant}
use sundown.Engine.System.{System}
use sundown.Events
use sundown.Events.{EventBuffer, EvLevel, EvAction, empty_events}
use sundown.Network.{Baselines}
use sundown.Policy.{Policy, default_policy}
use sundown.Preset.{PresetTable, empty_presets}
use sundown.Profile
use sundown.Profile.{AppProfile, ProfileTable}
use sundown.Rules.{RuleTable, empty_rules}

-- `HashSet<String>`
abbrev pub Set : Type 0
Set = Map Text (Unit {0})

pub record ExemptFlags : Type 0 where
  pub fg_service : Bool
  pub media : Bool
  pub location : Bool

pub record EngineState : Type 0 where
  pub policy : Policy
  pub frozen : Map Text Instant
  pub last_persist : Option (List (Text × ℕ))
  pub grace : Map Text (Instant × ℕ)
  pub cooldown : Map Text Instant
  pub adj_keep : Set
  pub wake_throttle : Map Text Instant
  pub wake_throttled : ℕ
  pub exempt : Map Text ExemptFlags
  pub last_focus : Option Text
  pub system_apps : Set
  pub media_uid : Option ℕ
  pub system_chain_locked : Bool
  pub pkg_uids : Map Text ℕ
  pub pkg_pids : Map Text (List ℕ)
  pub events : EventBuffer
  pub presets : PresetTable
  pub active_preset : Option Text
  pub net : Baselines
  pub freeze_ops : ℕ
  pub unfreeze_ops : ℕ
  pub wakeup_thaws : ℕ
  pub tick_count : ℕ
  pub discard_ops : ℕ
  pub discard_frozen_timeout : ℕ
  pub discard_mem_watermark : ℕ
  pub discard_boot_reclaim : ℕ
  pub discarded : List Text
  pub boot_completed_at : Option Instant
  pub boot_reclaim_done : Bool
  pub boot_reclaim_candidates : List (Text × ℕ)
  pub rules : RuleTable
  pub rule_hits : ℕ
  pub wakeup_sources : Map Text ℕ
  pub profile : ProfileTable

-- EngineState::default
abbrev pub initial : EngineState
initial = record {
  policy = default_policy;
  frozen = [];
  last_persist = none;
  grace = [];
  cooldown = [];
  adj_keep = [];
  wake_throttle = [];
  wake_throttled = 0;
  exempt = [];
  last_focus = none;
  system_apps = [];
  media_uid = none;
  system_chain_locked = false;
  pkg_uids = [];
  pkg_pids = [];
  events = empty_events;
  presets = empty_presets;
  active_preset = none;
  net = [];
  freeze_ops = 0;
  unfreeze_ops = 0;
  wakeup_thaws = 0;
  tick_count = 0;
  discard_ops = 0;
  discard_frozen_timeout = 0;
  discard_mem_watermark = 0;
  discard_boot_reclaim = 0;
  discarded = [];
  boot_completed_at = none;
  boot_reclaim_done = false;
  boot_reclaim_candidates = [];
  rules = empty_rules;
  rule_hits = 0;
  wakeup_sources = [];
  profile = [];
}

pub record St (S : Type 0) : Type 0 where
  pub eng : EngineState
  pub sys : S

module _ (system : System) where
  open system use {Sys, epoch_secs}

  -- `self.events.push_app(..)`
  unfoldable pub emit : EvLevel → EvAction → Text → Option Text → Option Text → St Sys → St Sys
  emit level action pkg reason msg st =
      let e = st.eng in
      record st {
        eng = record e {
          events = Events.push_app e.events (epoch_secs st.sys) level action pkg reason msg;
        };
      }

  -- `self.events.push_system(..)`
  unfoldable pub emit_system : EvLevel → EvAction → Option Text → Option Text → St Sys → St Sys
  emit_system level action reason msg st =
      let e = st.eng in
      record st {
        eng = record e {
          events = Events.push_system e.events (epoch_secs st.sys) level action reason msg;
        };
      }

  -- `self.profile.on_..(pkg)`
  unfoldable pub profile_update : (AppProfile → AppProfile) → Text → St Sys → St Sys
  profile_update f pkg st =
      let e = st.eng in record st { eng = record e { profile = Profile.on_entry f pkg e.profile } }
