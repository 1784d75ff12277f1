-- ===== src/Tests.antt =====
-- A small system to run the engine on, and states of the engine; the children apply the theorems
-- to them.
mod Core
mod Tables
mod Parts
mod Subscribers
mod Sockets
mod Logs
mod Probe
mod Device
mod Freezing
use sundown.Base.{
  ℕ, ◌+◌, ◌/◌, Bool, true, false, Option, none, some, List, [], ◌∷◌, Text, str, ◌==◌, nat_eq,
  text_eq, if◌then◌else◌, Instant,
}
use sundown.Engine.State.{EngineState, ExemptFlags, St, initial}
use sundown.Engine.System.{System}
use sundown.Policy.{AppMode, AppPolicy, Policy, default_policy, default_app_policy}
use sundown.Preset.{Preset, PresetTable, blank_preset}
use sundown.Rules.{RuleAction, RuleCondition, Rule, RuleTable}
use sundown.Rules.Parse.{blank_rule}

-- two apps, with the uids 10001 and 10002
abbrev pub chat : Text
chat = str "chat"

abbrev pub game : Text
game = str "game"

abbrev pub toy_uid : Text → Option ℕ
toy_uid p = if p == chat then some 10001 else if p == game then some 10002 else none

abbrev pub enabled_policy : Policy
enabled_policy = record default_policy { enabled = true; whitelist = chat ∷ [] }

abbrev pub toy_presets : PresetTable
toy_presets = record {
  presets = (str "night", record blank_preset { grace_seconds = 5 }) ∷ [];
  revision = 1;
}

-- The state of the toy system is its clock, in nanoseconds; each action takes one. No policy file
-- is there at the instant 0.
abbrev pub toy : System
toy = record {
  Sys = ℕ;
  now = λ t. t;
  epoch_secs = λ t. t / 1000000000;
  today = λ t. some (2026, 8, 5);
  now_minutes = λ t. some 600;
  pkg_uid = λ p t. toy_uid p;
  uid_has_procs = λ u t. true;
  uid_has_frozen_procs = λ u t. false;
  is_vpn_owner = λ u t. false;
  unfreeze_pkg = λ p t. (true, t + 1);
  unfreeze_pkg_keep_oom = λ p t. (true, t + 1);
  unfreeze_uid_keep_oom = λ u t. (true, t + 1);
  freeze_pkg_keep_push = λ p t. (true, t + 1);
  freeze_pkg_kill_push = λ p t. (true, t + 1);
  protect_oom = λ u t. (1, t + 1);
  restore_oom_pkg = λ p t. (true, t + 1);
  discard_uid = λ u t. (2, t + 1);
  frozen_uids = λ t. 10002 ∷ [];
  unfreeze_uid = λ u t. (true, t + 1);
  read_frozen_state = λ t. (game, 10002) ∷ [];
  clear_frozen_state = λ t. t + 1;
  uid_bytes = λ u t. some t;
  uid_rss_kb = λ u t. 1000;
  mem_available_kb = λ t. some 4000000;
  pkg_is_cache_adj = λ p t. true;
  boot_completed = λ t. true;
  load_policy = λ t. if t == 0 then none else some enabled_policy;
  load_rules = λ t. none;
  load_presets = λ t. toy_presets;
  list_packages = λ t. some (str "package:/system/app/Dialer.apk=dialer" ∷ []);
  media_uid_of = λ t. none;
  write_frozen_state = λ snap t. (true, t + 1);
  append_events = λ l t. (true, t + 1);
}

-- the engine at the instant `t`, its policy enabled and the game frozen or waiting
abbrev pub running : EngineState
running = record initial { policy = record default_policy { enabled = true } }

abbrev pub at : EngineState → ℕ → St ℕ
at e t = record { eng = e; sys = t }

abbrev pub game_frozen : EngineState
game_frozen = record running { frozen = (game, 7) ∷ [] }

abbrev pub game_waits : EngineState
game_waits = record running { grace = (game, (7, 30)) ∷ [] }

-- a rule that suppresses the wakeups of every app for a minute after a hit, until August 5
abbrev pub quiet_rule : Rule
quiet_rule = record (blank_rule (str "quiet")) {
  condition = RuleCondition.wakeup;
  throttle_seconds = 60;
  action_set = true;
}

abbrev pub quiet_rules : RuleTable
quiet_rules = record { rules = quiet_rule ∷ []; revision = 1; hits = 0 }

-- the throttle of a wakeup runs; an important app; the observation mode
abbrev pub throttled : EngineState
throttled = record game_frozen { wake_throttle = (game, 100) ∷ [] }

abbrev pub kind : EngineState
kind = record game_frozen {
  policy = record default_policy {
    enabled = true;
    apps = (game, record default_app_policy { mode = AppMode.important }) ∷ [];
  };
}

abbrev pub observing : EngineState
observing = record initial { frozen = (game, 7) ∷ [] }

abbrev pub preset_known : EngineState
preset_known = record game_frozen { presets = toy_presets }

-- a rule with an expiry date
abbrev pub dated_rule : Rule
dated_rule = record quiet_rule { expires_at = some (2026, 8, 5) }
