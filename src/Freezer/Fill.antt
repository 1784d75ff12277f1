-- ===== src/Freezer/Fill.antt =====
-- The freezer as the part of the engine's `System` that it is: the state is the world with the
-- freezer's statics. What the other modules of the daemon read of the world is a parameter. A
-- lookup gives its answer here without the cache that it leaves, so the package list is read anew
-- and the owner of the VPN is looked for anew at each question.
use sundown.Base.{ℕ, ◌≡◌, Bool, false, Option, none, some, List, Text, text_eq, some_inj, arith}
use sundown.Engine.Focus.{focus_thaw}
use sundown.Engine.Focus.Thaw.{ThawLaws, focus_thaw-thaws}
use sundown.Engine.State.{St}
use sundown.Engine.System.{System}
use sundown.Events.{Event}
use sundown.Freezer.{Os, Fz, uid_has_procs, uid_has_frozen_procs, frozen_uids}
use sundown.Freezer.Act.{
  unfreeze_pkg, unfreeze_pkg_keep_oom, unfreeze_uid_keep_oom, unfreeze_uid, discard_uid, on_known,
}
use sundown.Freezer.Act.Thaw.{unfreeze_uid-thaws}
use sundown.Freezer.Cgroup.{CgroupLaws}
use sundown.Freezer.Oom.{protect_oom, restore_oom_pkg}
use sundown.Freezer.Packages.{pkg_uid, read_frozen_state, clear_frozen_state, write_frozen_state}
use sundown.Freezer.Push.{freeze_pkg_keep_push, freeze_pkg_kill_push}
use sundown.Freezer.Vpn.{is_vpn_owner}
use sundown.Policy.{Policy}
use sundown.Preset.{PresetTable}
use sundown.Rules.{Date, RuleTable}

-- what the engine reads of the world past the freezer, and the event log
pub record Device (World : Type 0) : Type 0 where
  pub epoch_secs : World → ℕ
  pub today : World → Option Date
  pub now_minutes : World → Option ℕ
  pub uid_bytes : ℕ → World → Option ℕ
  pub uid_rss_kb : ℕ → World → ℕ
  pub mem_available_kb : World → Option ℕ
  pub pkg_is_cache_adj : Text → World → Bool
  pub boot_completed : World → Bool
  pub load_policy : World → Option Policy
  pub load_rules : World → Option RuleTable
  pub load_presets : World → PresetTable
  pub list_packages : World → Option (List Text)
  pub media_uid_of : World → Option ℕ
  pub append_events : List Event → World → Bool × World

module _ (os : Os) (device : Device os.World) where
  open os use {World, clock}

  abbrev on_world : Bool × World → Fz World → Bool × Fz World
  on_world r st = (r.0, record st { world = r.1 })

  abbrev pub freezer_system : System
  freezer_system = record {
    Sys = Fz World;
    now = λ st. clock st.world;
    epoch_secs = λ st. device.epoch_secs st.world;
    today = λ st. device.today st.world;
    now_minutes = λ st. device.now_minutes st.world;
    pkg_uid = λ pkg st. (pkg_uid os pkg st).0;
    uid_has_procs = λ uid st. uid_has_procs os uid st.world;
    uid_has_frozen_procs = λ uid st. uid_has_frozen_procs os uid st.world;
    is_vpn_owner = λ uid st. (is_vpn_owner os uid st).0;
    unfreeze_pkg = unfreeze_pkg os;
    unfreeze_pkg_keep_oom = unfreeze_pkg_keep_oom os;
    unfreeze_uid_keep_oom = unfreeze_uid_keep_oom os;
    freeze_pkg_keep_push = freeze_pkg_keep_push os;
    freeze_pkg_kill_push = freeze_pkg_kill_push os;
    protect_oom = protect_oom os;
    restore_oom_pkg = restore_oom_pkg os;
    discard_uid = discard_uid os;
    frozen_uids = λ st. frozen_uids os st.world;
    unfreeze_uid = unfreeze_uid os;
    read_frozen_state = λ st. read_frozen_state os st.world;
    clear_frozen_state = λ st. record st { world = clear_frozen_state os st.world };
    uid_bytes = λ uid st. device.uid_bytes uid st.world;
    uid_rss_kb = λ uid st. device.uid_rss_kb uid st.world;
    mem_available_kb = λ st. device.mem_available_kb st.world;
    pkg_is_cache_adj = λ pkg st. device.pkg_is_cache_adj pkg st.world;
    boot_completed = λ st. device.boot_completed st.world;
    load_policy = λ st. device.load_policy st.world;
    load_rules = λ st. device.load_rules st.world;
    load_presets = λ st. device.load_presets st.world;
    list_packages = λ st. device.list_packages st.world;
    media_uid_of = λ st. device.media_uid_of st.world;
    write_frozen_state = λ snap st. on_world (write_frozen_state os snap st.world) st;
    append_events = λ l st. on_world (device.append_events l st.world) st;
  }

  on_known-thaws :
      (laws : CgroupLaws os) (uid : ℕ) (r : Option ℕ × Fz World)
      → r.0 ≡ some uid
      → uid_has_frozen_procs os uid (on_known os (unfreeze_uid_keep_oom os) r).1.world ≡ false
  on_known-thaws laws uid (none, st) h = absurd (ground (arith, h))
  on_known-thaws laws uid (some u, st) h = rw (some_inj h) (unfreeze_uid-thaws os laws uid st).0

  freezer_system-thaws : (laws : CgroupLaws os) → ThawLaws freezer_system
  unfolding unfreeze_pkg_keep_oom
  freezer_system-thaws laws = record {
    keep_oom = λ pkg uid st h. on_known-thaws laws uid (pkg_uid os pkg st) h;
  }

  -- With the freezer as the engine's system, and the cgroup.freeze files of the apps, their
  -- process entries and their directories as the kernel documents them, after the thaw of a focus
  -- event the kernel has no level frozen of the uid that pkg_uid gives for the focused package,
  -- whether or not the package was in the frozen table.
  pub focus_thaw-unfreezes :
      (laws : CgroupLaws os) (pkg : Text) (uid now : ℕ) (st : St (Fz World))
      → (pkg_uid os pkg st.sys).0 ≡ some uid
      → uid_has_frozen_procs os uid (focus_thaw freezer_system pkg now st).sys.world ≡ false
  focus_thaw-unfreezes laws pkg uid now st h =
      focus_thaw-thaws freezer_system (freezer_system-thaws laws) pkg uid now st h
