-- ===== src/Policy/Parse.antt =====
-- The reading of policy.toml in daemon/src/policy.rs: `Policy::from_toml` and its helpers. A key
-- that is unknown or has the wrong type is logged and skipped, or gets a default.
use sundown.Base.{
  ℕ, ◌+◌, ◌*◌, Bool, true, false, ◌&&◌, ◌||◌, Option, none, some, List, [], ◌∷◌, Text, str, ◌==◌,
  text_eq, ltb, get, insert, unwrap_or, is_empty, strip_prefix, trim, join, split_once, parse_u32,
  ℤ, pos, pos_part, if◌then◌else◌,
}
use sundown.Policy.{
  AppPolicy, Policy, default_app_policy, default_policy, parse_app_mode, parse_push_mode,
}
use sundown.Toml.{TomlEntry, TomlValue, Parsed, parse}

-- str_of, bool_of, int_of, str_array_of
abbrev pub str_of : TomlValue → Option Text
str_of (TomlValue.string s) = some s
str_of _ = none

abbrev pub bool_of : TomlValue → Bool → Bool
bool_of (TomlValue.boolean b) d = b
bool_of _ d = d

abbrev pub int_of : TomlValue → ℤ → ℤ
int_of (TomlValue.int n) d = n
int_of _ d = d

abbrev pub str_array_of : TomlValue → List Text
str_array_of (TomlValue.str_array ss) = ss
str_array_of _ = []

-- `int_of(..).max(0) as u64`
abbrev pub seconds_of : TomlValue → ℕ → ℕ
seconds_of v d = pos_part (int_of v (pos d))

-- parse_hhmm and parse_window: 58 is a colon, 45 a hyphen
abbrev minute_of_day : Option ℕ → Option ℕ → Option ℕ
minute_of_day (some h) (some m) = if ltb 23 h || ltb 59 m then none else some (h * 60 + m)
minute_of_day _ _ = none

abbrev hhmm_of : Option (Text × Text) → Option ℕ
hhmm_of none = none
hhmm_of (some (h, m)) = minute_of_day (parse_u32 (trim h)) (parse_u32 (trim m))

unfoldable pub parse_hhmm : Text → Option ℕ
parse_hhmm s = hhmm_of (split_once 58 s)

abbrev pub window_of : Option ℕ → Option ℕ → Option (ℕ × ℕ)
window_of (some start) (some end_) = if ltb end_ start then none else some (start, end_)
window_of _ _ = none

abbrev window_parts : Option (Text × Text) → Option (ℕ × ℕ)
window_parts none = none
window_parts (some (a, b)) = window_of (parse_hhmm (trim a)) (parse_hhmm (trim b))

unfoldable pub parse_window : Text → Option (ℕ × ℕ)
parse_window s = window_parts (split_once 45 s)

abbrev and_then {ℓ κ} : {A : Type ℓ} {B : Type κ} → (A → Option B) → Option A → Option B
and_then f none = none
and_then f (some x) = f x

-- the keys of an [apps."pkg"] section
unfoldable pub set_app_key : Text → TomlValue → AppPolicy → AppPolicy
set_app_key k v ap =
    if k == str "mode"
    then record ap { mode = unwrap_or (and_then parse_app_mode (str_of v)) ap.mode }
    else if k == str "grace_seconds"
    then record ap { grace_override = some (seconds_of v 8) }
    else if k == str "keep_fg_service"
    then record ap { keep_fg_service = some (bool_of v true) }
    else if k == str "keep_media"
    then record ap { keep_media = some (bool_of v true) }
    else if k == str "keep_location"
    then record ap { keep_location = some (bool_of v true) }
    else if k == str "keep_high_network"
    then record ap { keep_high_network = some (bool_of v true) }
    else if k == str "keep_network"
    then record ap { keep_network = some (bool_of v true) }
    else if k == str "keep_wakeup"
    then record ap { keep_wakeup = some (bool_of v true) }
    else if k == str "push_mode"
    then record ap {
      push_mode = elim (and_then parse_push_mode (str_of v)) [
        | none ↦ ap.push_mode
        | some m ↦ some m
      ];
    }
    else if k == str "unfreeze_window"
    then record ap {
      unfreeze_window = elim (and_then parse_window (str_of v)) [
        | none ↦ ap.unfreeze_window
        | some w ↦ some w
      ];
    }
    else ap

-- apply_app_entry
unfoldable pub apply_app_entry : Text → Text → TomlValue → Policy → Policy
unfolding set_app_key
apply_app_entry pkg k v p = if is_empty pkg then p else record p {
  apps = insert pkg (set_app_key k v (unwrap_or (get pkg p.apps) default_app_policy)) p.apps;
}

-- the keys of the other sections
unfoldable pub set_general : Text → TomlValue → Policy → Policy
set_general k v p =
    if k == str "enabled"
    then record p { enabled = bool_of v false }
    else if k == str "grace_seconds"
    then record p { grace_seconds = seconds_of v 30 }
    else if k == str "cooldown_seconds"
    then record p { cooldown_seconds = seconds_of v 60 }
    else if k == str "wake_throttle_seconds"
    then record p { wake_throttle_seconds = seconds_of v 60 }
    else p

unfoldable pub set_whitelist : Text → TomlValue → Policy → Policy
set_whitelist k v p =
    if k == str "packages"
    then record p { whitelist = str_array_of v }
    else if k == str "receiver_gate"
    then record p { receiver_gate = str_array_of v }
    else if k == str "service_gate"
    then record p { service_gate = str_array_of v }
    else if k == str "pendingintent_gate"
    then record p { pendingintent_gate = str_array_of v }
    else if k == str "keep_fg_service"
    then record p { keep_fg_service = bool_of v true }
    else if k == str "keep_media"
    then record p { keep_media = bool_of v true }
    else if k == str "keep_location"
    then record p { keep_location = bool_of v true }
    else if k == str "keep_high_network"
    then record p { keep_high_network = bool_of v true }
    else if k == str "keep_network"
    then record p { keep_network = bool_of v true }
    else if k == str "push_policy"
    then record p { push_policy = unwrap_or (and_then parse_push_mode (str_of v)) p.push_policy }
    else p

unfoldable pub set_discard : Text → TomlValue → Policy → Policy
set_discard k v p =
    if k == str "frozen_timeout_seconds"
    then record p { discard_frozen_timeout_seconds = seconds_of v 1800 }
    else if k == str "mem_watermark_mb"
    then record p { discard_mem_watermark_mb = seconds_of v 512 }
    else if k == str "boot_reclaim"
    then record p { discard_boot_reclaim = bool_of v true }
    else if k == str "boot_reclaim_delay_seconds"
    then record p { discard_boot_reclaim_delay_seconds = seconds_of v 120 }
    else p

unfoldable pub set_small : Text → Text → TomlValue → Policy → Policy
set_small section k v p =
    if section == str "freeze" && k == str "force"
    then record p { force = str_array_of v }
    else if section == str "defense" && k == str "anr_protect"
    then record p { defense_anr = bool_of v false }
    else if section == str "defense" && k == str "cached_app_optimizer"
    then record p { defense_cached_optimizer = bool_of v false }
    else if section == str "vpn" && k == str "keep_vpn"
    then record p { keep_vpn = bool_of v true }
    else if section == str "vpn" && k == str "packages"
    then record p { vpn_packages = str_array_of v }
    else p

abbrev app_section : Option Text → Text → Text → TomlValue → Policy → Policy
app_section none section k v p = set_small section k v p
app_section (some pkg) section k v p = apply_app_entry pkg k v p

-- apply_entry
unfoldable pub apply_entry : TomlEntry → Policy → Policy
unfolding set_general set_whitelist set_discard set_small apply_app_entry
apply_entry e p =
    let section = join (str ".") e.table in
    if section == str "general"
    then set_general e.key e.value p
    else if section == str "whitelist"
    then set_whitelist e.key e.value p
    else if section == str "discard"
    then set_discard e.key e.value p
    else app_section (strip_prefix (str "apps.") section) section e.key e.value p

unfoldable pub apply_entries : List TomlEntry → Policy → Policy
unfolding apply_entry
apply_entries [] p = p
apply_entries (e ∷ es) p = apply_entries es (apply_entry e p)

abbrev built : ℕ → Parsed (List TomlEntry) → Parsed Policy
built revision (Parsed.refused n f) = Parsed.refused n f
built revision (Parsed.ok es) =
    Parsed.ok (apply_entries es (record default_policy { revision = revision }))

-- Policy::from_toml
unfoldable pub from_toml : Text → ℕ → Parsed Policy
unfolding apply_entries
from_toml src revision = built revision (parse src)
