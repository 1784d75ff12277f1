-- ===== src/Preset.antt =====
-- The presets of daemon/src/preset.rs: sets of [general] parameters that overlay a policy.
pub mod Parse
use sundown.Base.{ℕ, Bool, true, false, List, [], Text, Map, keys, text_le, sort_by}

pub record Preset : Type 0 where
  pub enabled : Bool
  pub grace_seconds : ℕ
  pub cooldown_seconds : ℕ
  pub keep_fg_service : Bool
  pub keep_media : Bool

-- the values of `or_insert_with` in `PresetTable::from_toml`
abbrev pub blank_preset : Preset
blank_preset = record {
  enabled = false;
  grace_seconds = 30;
  cooldown_seconds = 60;
  keep_fg_service = true;
  keep_media = true;
}

pub record PresetTable : Type 0 where
  pub presets : Map Text Preset
  pub revision : ℕ

-- PresetTable::default
abbrev pub empty_presets : PresetTable
empty_presets = record { presets = []; revision = 0 }

-- PresetTable::names
unfoldable pub names : PresetTable → List Text
names t = sort_by text_le (keys t.presets)
