-- ===== src/Engine/Tick.antt =====
-- The periodic step `tick` of daemon/src/engine.rs, one function for each of its other parts.
pub mod Laws
pub mod Safe
use sundown.Base.{
  ◌+◌, Bool, true, false, not, ◌&&◌, none, some, List, [], ◌∷◌, ◌++◌, Text, str, show_nat, insert,
  remove, retain, keys, nat_eq, text_eq, is_empty, length, filterb, ltb, Instant, if◌then◌else◌,
}
use sundown.Engine.Discard.{is_focus}
use sundown.Engine.Expire.{grace_due, grace_expire_all}
use sundown.Engine.Flags.{any_network}
use sundown.Engine.Focus.{cooldown_dur}
use sundown.Engine.Persist.{lock_system_chain_oom, persist_frozen_if_changed, persist_events}
use sundown.Engine.Triggers.{every, discards}
use sundown.Engine.State.{EngineState, St, emit, emit_system}
use sundown.Engine.System.{System}
use sundown.Events.{EvLevel, EvAction}

module _ (system : System) where
  open system use {
    Sys, now, today, pkg_uid, uid_has_procs, unfreeze_pkg, unfreeze_pkg_keep_oom, protect_oom,
    restore_oom_pkg, mem_available_kb, boot_completed,
  }

  -- the observation mode: everything is unfrozen, and the tables are emptied
  unfoldable pub unfreeze_each : List Text → St Sys → St Sys
  unfreeze_each [] st = st
  unfreeze_each (p ∷ ps) st =
      let e = st.eng in
      let r = unfreeze_pkg p st.sys in
      unfreeze_each ps (record {
        eng = record e { unfreeze_ops = (if r.0 then e.unfreeze_ops + 1 else e.unfreeze_ops) };
        sys = r.1;
      })

  unfoldable pub unfreeze_noted : List Text → St Sys → St Sys
  unfolding emit_system
  unfreeze_noted [] st = st
  unfreeze_noted (p ∷ ps) st =
      emit_system system EvLevel.info EvAction.unfreeze (some (str "policy_disabled"))
        (some (str "unfroze " ++ (show_nat (length (p ∷ ps)) ++ str " pkgs")))
        (unfreeze_each (p ∷ ps) st)

  unfoldable pub tick_disabled : St Sys → St Sys
  tick_disabled st =
      let st1 = unfreeze_noted (keys st.eng.frozen) st in
      let e = st1.eng in
      persist_events system (
        persist_frozen_if_changed system
          (record st1 { eng = record e { frozen = []; grace = []; cooldown = []; adj_keep = [] } }))

  -- frozen packages whose uid has no process, or is not known
  abbrev pub has_no_procs : Sys → Text → Bool
  has_no_procs s p = elim (pkg_uid p s) [ none ↦ true | some uid ↦ not (uid_has_procs uid s) ]

  unfoldable pub drop_one : Text → St Sys → St Sys
  drop_one p st =
      let e = st.eng in
      emit system EvLevel.warn EvAction.unfreeze p (some (str "no_procs")) none
        (record st { eng = record e { frozen = remove p e.frozen } })

  unfoldable pub drop_dead : List Text → St Sys → St Sys
  drop_dead [] st = st
  drop_dead (p ∷ ps) st = drop_dead ps (drop_one p st)

  -- the OOM lock of the frozen set, every fifth tick
  unfoldable pub relock_each : List Text → Sys → Sys
  relock_each [] s = s
  relock_each (p ∷ ps) s =
      relock_each ps (elim (pkg_uid p s) [ none ↦ s | some uid ↦ (protect_oom uid s).1 ])

  unfoldable pub relock_frozen : St Sys → St Sys
  unfolding relock_each
  relock_frozen st =
      if every 5 st.eng then record st { sys = relock_each (keys st.eng.frozen) st.sys } else st

  -- the OOM lock of the package in the foreground is taken back
  unfoldable pub restore_one : Text → St Sys → St Sys
  restore_one p st =
      let e = st.eng in
      if is_focus e.last_focus p
      then record {
        eng = record e { adj_keep = remove p e.adj_keep };
        sys = (restore_oom_pkg p st.sys).1;
      }
      else st

  unfoldable pub restore_focus : List Text → St Sys → St Sys
  restore_focus [] st = st
  restore_focus (p ∷ ps) st = restore_focus ps (restore_one p st)

  -- frozen packages with traffic: all are sampled, then those with traffic are unfrozen
  unfoldable pub sample_frozen : List Text → St Sys → List Text × St Sys
  sample_frozen [] st = ([], st)
  sample_frozen (p ∷ ps) st =
      let (active, st1) = any_network system p st in
      let (rest, st2) = sample_frozen ps st1 in ((if active then p ∷ rest else rest), st2)

  abbrev pub count_thaw : Bool → Text → EngineState → EngineState
  count_thaw false p e = e
  count_thaw true p e = record e {
    unfreeze_ops = e.unfreeze_ops + 1;
    wakeup_thaws = e.wakeup_thaws + 1;
    adj_keep = insert p tt e.adj_keep;
  }

  unfoldable pub net_wake_one : Text → St Sys → St Sys
  unfolding emit
  net_wake_one p st =
      let r = unfreeze_pkg_keep_oom p st.sys in
      let e = count_thaw r.0 p st.eng in
      emit system EvLevel.info EvAction.unfreeze p (some (str "network_wakeup")) none (record {
        eng = record e {
          frozen = remove p e.frozen;
          grace = remove p e.grace;
          cooldown = insert p (now r.1 + cooldown_dur e) e.cooldown;
        };
        sys = r.1;
      })

  unfoldable pub net_wake_all : List Text → St Sys → St Sys
  net_wake_all [] st = st
  net_wake_all (p ∷ ps) st = net_wake_all ps (net_wake_one p st)

  unfoldable pub net_wakeups : St Sys → St Sys
  net_wakeups st =
      let r = sample_frozen (keys st.eng.frozen) st in
      if every 10 st.eng && not (is_empty st.eng.frozen) then net_wake_all r.0 r.1 else st

  abbrev pub clean_cooldown : Instant → St Sys → St Sys
  clean_cooldown t st =
      let e = st.eng in
      record st { eng = record e { cooldown = retain (λ until. ltb t until) e.cooldown } }

  unfoldable pub clean_dead : St Sys → St Sys
  clean_dead st = drop_dead (filterb (has_no_procs st.sys) (keys st.eng.frozen)) st

  abbrev pub count_tick : St Sys → St Sys
  count_tick st = let e = st.eng in record st { eng = record e { tick_count = e.tick_count + 1 } }

  unfoldable pub tick_enabled : Instant → St Sys → St Sys
  tick_enabled t st =
      let st1 = grace_expire_all system (grace_due t st.eng.grace) t st in
      let st2 = relock_frozen (discards system t (clean_dead (clean_cooldown t st1))) in
      let st3 = count_tick (restore_focus (keys st2.eng.adj_keep) st2) in
      persist_events system (persist_frozen_if_changed system (net_wakeups st3))

  unfoldable pub tick_body : Instant → St Sys → St Sys
  tick_body t st = if st.eng.policy.enabled then tick_enabled t st else tick_disabled st

  -- EngineState::tick
  unfoldable pub tick : St Sys → St Sys
  tick st = tick_body (now st.sys) (if every 5 st.eng then lock_system_chain_oom system st else st)
