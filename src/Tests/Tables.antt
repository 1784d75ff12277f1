-- ===== src/Tests/Tables.antt =====
-- The theorems about reloads, presets, the status and the files, applied to the toy system.
use sundown.Base.{
  ℕ, ◌||◌, Bool, true, false, ◌≡◌, refl, none, List, [], ◌∷◌, str, contains_key, get, insert,
  remove, nat_eq, text_eq, ◌==◌, text_beq, any, starts_with, trim, trim_start, trim_end,
  strip_prefix, rsplit_next, behind_last, sort_by,
}
use sundown.Engine.Flags.{should_never_freeze, is_vpn_protected}
use sundown.Engine.Reload.{
  reload_policy, apply_preset, clear_preset, reload_loaded, newly_protected, thaw_all,
  thaw_protected, refresh_system_apps, reload_rules, with_policy, replay_active, protected_set,
  parse_pm_line, is_system_partition_path, is_vendor_pkg_domain,
}
use sundown.Engine.Reload.Laws.{reload_policy_thaws, clear_apply_preset, reloaded}
use sundown.Engine.State.{emit, emit_system}
use sundown.Engine.Status.{sundown_frozen_uids, sundown_candidate_uids, uids_of}
use sundown.Engine.Status.Laws.{IsIncreasing, candidate_uids_lem}
use sundown.Policy.{is_critical, is_whitelisted, is_vpn_listed}
use sundown.Rules.{peek, find_index}
use sundown.Tests.{toy, game, at, game_frozen, game_waits, enabled_policy, preset_known}

reload_policy_thaws_example :
    (contains_key game game_frozen.frozen ≡ true)
    × (should_never_freeze toy game (reloaded toy enabled_policy (at game_frozen 9)) ≡ false)
unfolding reload_policy reload_loaded newly_protected thaw_all thaw_protected refresh_system_apps
    reload_rules with_policy replay_active protected_set parse_pm_line is_system_partition_path
    is_vendor_pkg_domain emit emit_system should_never_freeze is_vpn_protected is_critical
    is_whitelisted is_vpn_listed peek find_index get insert remove text_beq starts_with trim
    trim_start trim_end strip_prefix rsplit_next behind_last sort_by
reload_policy_thaws_example =
    reload_policy_thaws toy enabled_policy game (at game_frozen 9) refl refl

clear_apply_preset_example :
    let st = at preset_known 9 in
    let e = st.eng in
    let st' = clear_preset toy (apply_preset toy (str "night") st).1 in
    (st'.sys ≡ 9)
    × (st'.eng
        ≡ record e { policy = enabled_policy; active_preset = none; events = st'.eng.events })
clear_apply_preset_example = clear_apply_preset toy (str "night") (at preset_known 9)

candidate_uids_lem_example :
    let has : List ℕ → Bool = any (λ v. v == 10002) in
    IsIncreasing 0 (sundown_frozen_uids toy (at game_waits 9))
    × IsIncreasing 0 (sundown_candidate_uids toy (at game_waits 9))
    × (has (sundown_frozen_uids toy (at game_waits 9)) ≡ has (uids_of toy [] (at game_waits 9)))
    × (has (sundown_candidate_uids toy (at game_waits 9)) ≡ (
        has (uids_of toy [] (at game_waits 9))
        || (has (uids_of toy (game ∷ []) (at game_waits 9))
            || has (uids_of toy [] (at game_waits 9)))))
candidate_uids_lem_example = candidate_uids_lem toy 10002 (at game_waits 9)
