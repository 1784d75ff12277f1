-- ===== src/Preset/Parse.antt =====
-- The reading of action.toml in daemon/src/preset.rs: `PresetTable::from_toml`.
use sundown.Base.{
  ℕ, Bool, false, Option, none, some, List, [], ◌∷◌, Text, str, ◌==◌, text_eq, get, insert,
  unwrap_or, is_empty, strip_prefix, join, ℤ, pos, pos_part, if◌then◌else◌,
}
use sundown.Preset.{Preset, PresetTable, blank_preset}
use sundown.Toml.{TomlEntry, TomlValue, Parsed, parse}

-- bool_of, int_of
abbrev bool_of : TomlValue → Bool
bool_of (TomlValue.boolean b) = b
bool_of _ = false

abbrev int_of : TomlValue → ℤ
int_of (TomlValue.int n) = n
int_of _ = pos 0

unfoldable pub set_key : Text → TomlValue → Preset → Preset
set_key k v p =
    if k == str "enabled"
    then record p { enabled = bool_of v }
    else if k == str "grace_seconds"
    then record p { grace_seconds = pos_part (int_of v) }
    else if k == str "cooldown_seconds"
    then record p { cooldown_seconds = pos_part (int_of v) }
    else if k == str "keep_fg_service"
    then record p { keep_fg_service = bool_of v }
    else if k == str "keep_media"
    then record p { keep_media = bool_of v }
    else p

abbrev in_section : Option Text → TomlEntry → PresetTable → PresetTable
in_section none e t = t
in_section (some name) e t = if is_empty name then t else record t {
  presets =
      insert name (set_key e.key e.value (unwrap_or (get name t.presets) blank_preset)) t.presets;
}

unfoldable pub add_entries : List TomlEntry → PresetTable → PresetTable
unfolding set_key
add_entries [] t = t
add_entries (e ∷ es) t =
    add_entries es (in_section (strip_prefix (str "presets.") (join (str ".") e.table)) e t)

abbrev built : ℕ → Parsed (List TomlEntry) → Parsed PresetTable
built revision (Parsed.refused n f) = Parsed.refused n f
built revision (Parsed.ok es) =
    Parsed.ok (add_entries es (record { presets = []; revision = revision }))

-- PresetTable::from_toml
unfoldable pub preset_from_toml : Text → ℕ → Parsed PresetTable
unfolding add_entries
preset_from_toml src revision = built revision (parse src)
