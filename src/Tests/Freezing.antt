-- ===== src/Tests/Freezing.antt =====
-- The theorems about the freezer, applied to the small device.
use sundown.Base.{
  ◌≡◌, refl, ap, some_inj, insert, arith, true, false, ◌&&◌, none, some, [], ◌∷◌, Text, str, ◌==◌,
  nat_eq, text_eq, text_beq, Map, get, any, pos, strip_prefix, digits_onto, show_nat, parse_u32,
  lines, split, words, trim,
}
use sundown.Engine.Focus.{focus_thaw}
use sundown.Freezer.{
  Fz, uid_dir, uid_name, freeze_file, procs_file, under, proc_file, uid_has_frozen_procs,
  frozen_uids, uid_pids, uid_entry, pid_entry,
}
use sundown.Freezer.Act.{unfreeze_uid, unfreeze_uid_keep_oom}
use sundown.Freezer.Act.Thaw.{unfreeze_uid-thaws}
use sundown.Freezer.Fill.{Device, freezer_system, focus_thaw-unfreezes}
use sundown.Freezer.Frozen.{frozen_uids-uid_has_frozen_procs}
use sundown.Freezer.Oom.{protect_oom, restore_oom, read_oom_adj, write_oom_adj, oom_protect}
use sundown.Freezer.Oom.Backup.{restore-protect_oom}
use sundown.Freezer.Packages.{pkg_uid, stored_of, stored_text, read_packages_list}
use sundown.Freezer.Packages.Cache.{IsFresh, uid_on_disk, pkg_uid-eq-disk}
use sundown.Freezer.Packages.Stored.{stored_of-stored_text}
use sundown.Freezer.Push.{keep_in, is_push_proc}
use sundown.Freezer.Push.Keep.{keep_in-spares_push}
use sundown.Tests.{chat, game, running, toy_presets}
use sundown.Tests.Device.{toy_os, toy_laws, toy_scores, device}

unfreeze_uid-thaws_example :
    (uid_has_frozen_procs toy_os 10001 (unfreeze_uid_keep_oom toy_os 10001 device).1.world ≡ false)
    × (uid_has_frozen_procs toy_os 10001 (unfreeze_uid toy_os 10001 device).1.world ≡ false)
unfreeze_uid-thaws_example = unfreeze_uid-thaws toy_os toy_laws 10001 device

-- the device with a cache of the list for the time of its last change
abbrev cached_device : Fz (Map Text Text)
cached_device = record device { pkg_uid_cache = some (7, read_packages_list toy_os device.world) }

pkg_uid-eq-disk_example :
    let out = pkg_uid toy_os chat cached_device in
    (out.0 ≡ uid_on_disk toy_os (some 7) chat device.world)
    × (out.1.world ≡ device.world)
    × (out.1.oom_backup ≡ cached_device.oom_backup)
    × (out.1.vpn_owner_cache ≡ cached_device.vpn_owner_cache)
    × IsFresh toy_os out.1
pkg_uid-eq-disk_example = pkg_uid-eq-disk toy_os chat cached_device (λ h. refl)

stored_of-stored_text_example :
    stored_of (some (stored_text ((chat, 10001) ∷ (game, 10002) ∷ [])))
    ≡ (chat, 10001) ∷ (game, 10002) ∷ []
stored_of-stored_text_example = stored_of-stored_text ((chat, 10001) ∷ (game, 10002) ∷ []) (
  ((refl, (refl, (refl, (refl, tt)))), (refl, (refl, (refl, (refl, tt)))), omega arith),
  (((refl, (refl, (refl, (refl, tt)))), (refl, (refl, (refl, (refl, tt)))), omega arith), tt),
)

frozen_uids-uid_has_frozen_procs_example :
    any (λ u. u == 10001) (frozen_uids toy_os device.world) ≡ (
      any (λ n. n == uid_name 10001) (str "uid_10001" ∷ [])
      && uid_has_frozen_procs toy_os 10001 device.world)
unfolding text_beq uid_dir uid_entry strip_prefix show_nat digits_onto parse_u32
frozen_uids-uid_has_frozen_procs_example =
    frozen_uids-uid_has_frozen_procs toy_os 10001 device.world (omega arith)
      (λ u e. ap uid_name (some_inj e), tt)

restore-protect_oom_example :
    let locked = (protect_oom toy_os 10001 device).1 in
    ((read_oom_adj toy_os 41 locked.world ≡ some oom_protect)
      × (get 41 locked.oom_backup ≡ some (pos 900)))
    × ((read_oom_adj toy_os 41 (restore_oom toy_os 10001 locked).1.world ≡ some (pos 900))
        × (get 41 (restore_oom toy_os 10001 locked).1.oom_backup ≡ none))
unfolding text_beq uid_pids show_nat parse_u32 strip_prefix trim lines get insert read_oom_adj
    write_oom_adj protect_oom uid_dir procs_file proc_file
restore-protect_oom_example =
    restore-protect_oom toy_os 41 toy_scores (pos 900) (omega arith) refl 10001 device refl refl
      (refl, refl)

keep_in-spares_push_example :
    let after = (keep_in toy_os 10001 (toy_os.dir (uid_dir 10001) device.world) device).1.world in
    (get (freeze_file (under (uid_dir 10001) (str "pid_42"))) after
      ≡ get (freeze_file (under (uid_dir 10001) (str "pid_42"))) device.world)
    × (get (freeze_file (uid_dir 10001)) after ≡ get (freeze_file (uid_dir 10001)) device.world)
unfolding text_beq show_nat parse_u32 strip_prefix uid_dir pid_entry is_push_proc proc_file split
    get
keep_in-spares_push_example =
    keep_in-spares_push toy_os toy_laws 10001 (str "pid_42") 42 refl
      (refl, (refl, (refl, (refl, (refl, (refl, tt))))))
      (str "cgroup.freeze" ∷ str "pid_41" ∷ str "pid_42" ∷ []) device refl refl refl

abbrev toy_device : Device (Map Text Text)
toy_device = record {
  epoch_secs = λ w. 5;
  today = λ w. none;
  now_minutes = λ w. none;
  uid_bytes = λ u w. none;
  uid_rss_kb = λ u w. 0;
  mem_available_kb = λ w. none;
  pkg_is_cache_adj = λ p w. false;
  boot_completed = λ w. true;
  load_policy = λ w. none;
  load_rules = λ w. none;
  load_presets = λ w. toy_presets;
  list_packages = λ w. none;
  media_uid_of = λ w. none;
  append_events = λ l w. (true, w);
}

focus_thaw-unfreezes_example :
    let after =
      focus_thaw
        (freezer_system toy_os toy_device)
        chat
        3
        (record { eng = running; sys = device }) in
    uid_has_frozen_procs toy_os 10001 after.sys.world ≡ false
unfolding text_beq show_nat parse_u32 get insert lines words pkg_uid read_packages_list
focus_thaw-unfreezes_example =
    focus_thaw-unfreezes toy_os toy_device toy_laws chat 10001 3
      (record { eng = running; sys = device }) refl
