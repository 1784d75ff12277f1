-- ===== src/Engine/Reload.antt =====
-- The reload of the configuration in daemon/src/engine.rs: the protection list of the system apps
-- from `pm list packages -f`, the policy with the overlay of the active preset, the rules, and the
-- commands that apply and clear a preset.
pub mod Laws
use sundown.Base.{
  ◌+◌, Bool, ◌||◌, Option, none, some, List, [], ◌∷◌, ◌++◌, Text, str, show_nat, show_bool,
  starts_with, trim, rsplit_next, strip_prefix, get, insert, remove, keys, text_eq, nat_eq, filterb,
  is_empty, length, unwrap_or, if◌then◌else◌,
}
use sundown.Engine.Flags.{should_never_freeze}
use sundown.Engine.State.{EngineState, Set, St, emit, emit_system}
use sundown.Engine.System.{System}
use sundown.Events.{EvLevel, EvAction}
use sundown.Policy.{Policy}
use sundown.Preset.{Preset, names}
use sundown.Rules.{RuleTable}

-- EngineState::is_system_partition_path
unfoldable pub is_system_partition_path : Text → Bool
is_system_partition_path path =
    let p = trim path in
    starts_with (str "/system/") p
    || starts_with (str "/vendor/") p
    || starts_with (str "/product/") p
    || starts_with (str "/odm/") p
    || starts_with (str "/system_ext/") p
    || starts_with (str "/apex/") p

-- EngineState::is_vendor_pkg_domain
unfoldable pub is_vendor_pkg_domain : Text → Bool
is_vendor_pkg_domain pkg =
    starts_with (str "com.oplus.") pkg
    || starts_with (str "com.coloros.") pkg
    || starts_with (str "com.oneplus.") pkg
    || starts_with (str "com.realme.") pkg
    || starts_with (str "com.heytap.") pkg
    || starts_with (str "com.nearme.") pkg

-- EngineState::parse_pm_line; 61 is `=`
unfoldable pub parse_pm_line : Text → Option Text
unfolding is_system_partition_path is_vendor_pkg_domain
parse_pm_line raw =
    let line = trim raw in
    let pkg = trim (rsplit_next 61 line) in
    let path = unwrap_or (strip_prefix (str "package:") line) [] in
    if is_empty pkg
    then none
    else if is_system_partition_path path || is_vendor_pkg_domain pkg
    then some pkg
    else none

-- the packages that the lines protect
abbrev protect_line : Option Text → Set → Set
protect_line none acc = acc
protect_line (some pkg) acc = insert pkg tt acc

unfoldable pub protected_set : List Text → Set → Set
protected_set [] acc = acc
protected_set (l ∷ ls) acc = protected_set ls (protect_line (parse_pm_line l) acc)

-- EngineState::overlay_preset
unfoldable pub overlay_preset : Preset → Policy → Policy
overlay_preset p pol = record pol {
  enabled = p.enabled;
  grace_seconds = p.grace_seconds;
  cooldown_seconds = p.cooldown_seconds;
  keep_fg_service = p.keep_fg_service;
  keep_media = p.keep_media;
}

module _ (system : System) where
  open system use {
    Sys, list_packages, media_uid_of, load_policy, load_rules, load_presets, unfreeze_pkg,
  }

  -- EngineState::refresh_system_apps
  unfoldable pub refresh_system_apps : St Sys → St Sys
  unfolding protected_set
  refresh_system_apps st =
      let e = st.eng in
      record st {
        eng = record e {
          system_apps = protected_set (unwrap_or (list_packages st.sys) []) [];
          media_uid = media_uid_of st.sys;
        };
      }

  -- the rule table: a failed load keeps the old one
  unfoldable pub reload_rules : Option RuleTable → St Sys → St Sys
  reload_rules none st = st
  reload_rules (some rt) st =
      let st1 =
        emit_system system EvLevel.report EvAction.policy (some (str "rules_reloaded"))
          (some
            (str "rules=" ++ (show_nat (length rt.rules) ++ (str " rev=" ++ show_nat rt.revision))))
          st in
      let e = st1.eng in record st1 { eng = record e { rules = rt } }

  -- the overlay of the active preset on a policy that was loaded
  unfoldable pub replay : Option Preset → Option Text → Policy → Policy × Option Text
  replay none active pol = (pol, none)
  replay (some p) active pol = (overlay_preset p pol, active)

  unfoldable pub replay_active : EngineState → Policy → Policy × Option Text
  unfolding replay
  replay_active e pol = elim e.active_preset [
    | none ↦ (pol, none)
    | some name ↦ replay (get name e.presets.presets) (some name) pol
  ]

  -- one frozen package that the new policy protects
  unfoldable pub thaw_protected : Text → St Sys → St Sys
  thaw_protected pkg st =
      let e = st.eng in
      let r = unfreeze_pkg pkg st.sys in
      emit system EvLevel.info EvAction.unfreeze pkg (some (str "policy_reload")) none (record {
        eng = record e {
          unfreeze_ops = (if r.0 then e.unfreeze_ops + 1 else e.unfreeze_ops);
          frozen = remove pkg e.frozen;
          grace = remove pkg e.grace;
        };
        sys = r.1;
      })

  unfoldable pub thaw_all : List Text → St Sys → St Sys
  thaw_all [] st = st
  thaw_all (p ∷ ps) st = thaw_all ps (thaw_protected p st)

  unfoldable pub newly_protected : St Sys → List Text
  newly_protected st = filterb (λ p. should_never_freeze system p st) (keys st.eng.frozen)

  unfoldable pub with_policy : Policy → St Sys → St Sys
  unfolding replay_active
  with_policy p st =
      let msg =
        str "enabled="
        ++ (show_bool p.enabled
            ++ (str " apps="
                ++ (show_nat (length p.apps) ++ (str " rev=" ++ show_nat p.revision)))) in
      let st1 =
        emit_system system EvLevel.report EvAction.policy (some (str "reloaded")) (some msg) st in
      let e = st1.eng in
      let r = replay_active e p in
      record st1 { eng = record e { policy = r.0; active_preset = r.1 } }

  unfoldable pub reload_loaded : Option Policy → St Sys → St Sys
  reload_loaded none st =
      emit_system system EvLevel.error EvAction.policy (some (str "reload_failed")) none st
  reload_loaded (some p) st = let st1 = with_policy p st in thaw_all (newly_protected st1) st1

  -- EngineState::reload_policy
  unfoldable pub reload_policy : St Sys → St Sys
  reload_policy st =
      let st1 = refresh_system_apps st in
      let e = st1.eng in
      let st2 = record st1 { eng = record e { presets = load_presets st1.sys } } in
      let st3 = reload_rules (load_rules st2.sys) st2 in reload_loaded (load_policy st3.sys) st3

  -- EngineState::apply_preset; the error is the list of the names there are
  unfoldable pub apply_known : Option Preset → Text → St Sys → (Option (List Text)) × St Sys
  apply_known none name st = (some (names st.eng.presets), st)
  apply_known (some p) name st =
      let e = st.eng in
      let msg =
        str "apply="
        ++ (name
            ++ (str " enabled="
                ++ (show_bool p.enabled
                    ++ (str " grace=" ++ (show_nat p.grace_seconds ++ str "s"))))) in
      (
        none,
        emit_system system EvLevel.report EvAction.policy (some (str "preset")) (some msg)
            (record st {
              eng = record e { policy = overlay_preset p e.policy; active_preset = some name };
            }),
      )

  unfoldable pub apply_preset : Text → St Sys → (Option (List Text)) × St Sys
  unfolding apply_known
  apply_preset name st = apply_known (get name st.eng.presets.presets) name st

  -- EngineState::clear_preset
  abbrev pub note_clear : Option Text → St Sys → St Sys
  note_clear none st = st
  note_clear (some name) st =
      emit_system system EvLevel.report EvAction.policy (some (str "preset"))
        (some (str "clear=" ++ name)) st

  unfoldable pub clear_preset : St Sys → St Sys
  clear_preset st =
      let e = st.eng in
      elim (load_policy st.sys) [
        | none ↦ st
        | some p ↦
            note_clear e.active_preset
              (record st { eng = record e { policy = p; active_preset = none } })
      ]
