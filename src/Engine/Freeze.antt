-- ===== src/Engine/Freeze.antt =====
-- `freeze_now` and the decision on a package that leaves the foreground (`decide_leave`).
pub mod Adds
pub mod Laws
pub mod Leaves
pub mod Net
pub mod Verdict
use sundown.Base.{
  ℕ, ◌+◌, ◌++◌, show_nat, Bool, true, false, not, Option, none, some, Text, str, get, insert,
  remove, contains_key, text_eq, Instant, if◌then◌else◌,
}
use sundown.Engine.Flags.{
  push_mode, mode_of, exempt_action, is_vpn_protected, in_unfreeze_window, high_network,
  any_network,
}
use sundown.Engine.State.{St, emit, profile_update}
use sundown.Engine.System.{System}
use sundown.Events.{EvLevel, EvAction}
use sundown.Policy.{
  Policy, PushMode, is_exempt_mode, is_critical, is_whitelisted, is_forced, effective_grace,
}
use sundown.Profile.{profile_freeze}
use sundown.Rules
use sundown.Rules.{RuleAction, RuleHit, hit}

-- the `grace_dur` of `decide_leave`
abbrev pub grace_of : Policy → Text → ℕ
grace_of p pkg = elim (get pkg p.apps) [
  | none ↦ p.grace_seconds
  | some ap ↦ effective_grace ap p.grace_seconds
]

module _ (system : System) where
  open system use {
    Sys, epoch_secs, today, pkg_uid, uid_has_procs, freeze_pkg_keep_push, freeze_pkg_kill_push,
    protect_oom,
  }

  -- `self.frozen.insert(pkg, now)` and what follows a freeze that succeeded, or failed
  unfoldable pub frozen_ok : Text → Instant → Text → St Sys → St Sys
  unfolding emit profile_update
  frozen_ok pkg now reason st =
      let e = st.eng in
      let st = record st {
        eng = record e { frozen = insert pkg now e.frozen; freeze_ops = e.freeze_ops + 1 };
      } in
      emit system EvLevel.success EvAction.freeze pkg (some reason) none
        (profile_update system (profile_freeze (epoch_secs st.sys)) pkg st)

  unfoldable pub after_freeze : Text → Instant → Text → Bool × Sys → St Sys → St Sys
  unfolding frozen_ok
  after_freeze pkg now reason (true, sys) st = frozen_ok pkg now reason (record st { sys = sys })
  after_freeze pkg now reason (false, sys) st =
      emit system EvLevel.error EvAction.freeze pkg (some (str "freeze_failed")) none
        (record st { sys = sys })

  -- the dispatch on `push_mode`
  unfoldable pub freeze_by_mode : PushMode → Text → Sys → Bool × Sys
  freeze_by_mode PushMode.keep pkg s = freeze_pkg_keep_push pkg s
  freeze_by_mode PushMode.kill pkg s = freeze_pkg_kill_push pkg s

  -- the package is refused: an event, and out of the grace table
  unfoldable pub refuse : Text → Text → St Sys → St Sys
  unfolding emit
  refuse pkg reason st =
      let st = emit system EvLevel.warn EvAction.exempt pkg (some reason) none st in
      let e = st.eng in record st { eng = record e { grace = remove pkg e.grace } }

  -- `Some(uid) if !uid_has_procs(uid)`
  abbrev pub known_dead : Option ℕ → Sys → Bool
  known_dead none s = false
  known_dead (some uid) s = not (uid_has_procs uid s)

  -- EngineState::freeze_now
  unfoldable pub freeze_now : Text → Instant → Text → St Sys → St Sys
  unfolding refuse after_freeze freeze_by_mode
  freeze_now pkg now reason st =
      if is_critical pkg
      then refuse pkg (str "critical") st
      else if contains_key pkg st.eng.system_apps
      then refuse pkg (str "system_app") st
      else if is_vpn_protected system pkg st
      then refuse pkg (str "vpn_protected") st
      else if known_dead (pkg_uid pkg st.sys) st.sys
      then emit system EvLevel.warn EvAction.freeze pkg (some (str "no_procs")) none st
      else after_freeze pkg now reason (freeze_by_mode (push_mode st.eng.policy pkg) pkg st.sys) st

  -- an exemption that leaves an event
  abbrev pub spare : Text → Text → Option Text → St Sys → St Sys
  spare pkg reason msg st = emit system EvLevel.info EvAction.exempt pkg (some reason) msg st

  unfoldable pub lock_oom : Option ℕ → St Sys → St Sys
  lock_oom none st = st
  lock_oom (some uid) st = record st { sys = (protect_oom uid st.sys).1 }

  -- the last part of `decide_leave`: forced packages are frozen, the others wait
  unfoldable pub leave_timed : Text → Instant → St Sys → St Sys
  unfolding lock_oom emit
  leave_timed pkg now st =
      if is_forced st.eng.policy pkg
      then freeze_now pkg now (str "force") st
      else let e = st.eng in
        let st1 = record st {
          eng = record e { grace = insert pkg (now, grace_of e.policy pkg) e.grace };
        } in
        let st2 = lock_oom (pkg_uid pkg st1.sys) st1 in
        let e2 = st2.eng in
        emit system EvLevel.timer EvAction.delay pkg (some (str "grace"))
          (some (show_nat (grace_of e.policy pkg) ++ str "s"))
          (record st2 { eng = record e2 { adj_keep = insert pkg tt e2.adj_keep } })

  -- what a rule that is hit does to a package that leaves
  unfoldable pub leave_action : RuleAction → Text → Text → Instant → St Sys → St Sys
  leave_action RuleAction.exempt id pkg now st = spare pkg (str "rule_exempt") (some id) st
  leave_action RuleAction.freeze id pkg now st =
      freeze_now pkg now (str "rule")
        (emit system EvLevel.event EvAction.delay pkg (some (str "rule_freeze")) (some id) st)
  leave_action _ id pkg now st = leave_timed pkg now st

  unfoldable pub leave_hit : Option RuleHit → Text → Instant → St Sys → St Sys
  leave_hit none pkg now st = leave_timed pkg now st
  leave_hit (some h) pkg now st =
      let e = st.eng in
      leave_action h.action h.id pkg now
        (record st { eng = record e { rule_hits = e.rule_hits + 1 } })

  unfoldable pub leave_rules : Text → Instant → St Sys → St Sys
  leave_rules pkg now st =
      let e = st.eng in
      let r = hit e.rules pkg Rules.leave none (today st.sys) now in
      leave_hit r.0 pkg now (record st { eng = record e { rules = r.1 } })

  -- from the network tests on
  unfoldable pub leave_network : Text → Instant → St Sys → St Sys
  leave_network pkg now st =
      let (busy, st1) = high_network system pkg st in
      if busy
      then spare pkg (str "high_network") none st1
      else let (active, st2) = any_network system pkg st1 in
        if active
        then spare pkg (str "network_exempt") none st2
        else if contains_key pkg st2.eng.cooldown
        then st2
        else leave_rules pkg now st2

  -- EngineState::decide_leave
  unfoldable pub decide_leave : Text → Instant → St Sys → St Sys
  decide_leave pkg now st =
      if not st.eng.policy.enabled
      then st
      else if is_critical pkg
      then spare pkg (str "critical") none st
      else if contains_key pkg st.eng.system_apps
      then spare pkg (str "system_app") none st
      else if is_whitelisted st.eng.policy pkg
      then st
      else if is_vpn_protected system pkg st
      then spare pkg (str "vpn_protected") none st
      else if is_exempt_mode (mode_of st.eng.policy pkg)
      then spare pkg (str "per_app_exempt") none st
      else if exempt_action st.eng pkg
      then spare pkg (str "exempt_action") none st
      else if in_unfreeze_window system pkg st
      then spare pkg (str "schedule_window") none st
      else leave_network pkg now st
