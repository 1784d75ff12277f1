-- ===== src/Engine/Startup.antt =====
-- The start of the daemon: `init_engine` of daemon/src/state.rs, and the reconciliation of
-- daemon/src/main.rs with the frozen set of the last session.
pub mod Laws
use sundown.Base.{
  ℕ, Bool, true, false, not, ◌≡◌, refl, arith, Option, none, some, List, [], ◌∷◌, ◌++◌, Text, str,
  show_nat, contains_key, insert, get-insert, get-empty, text_eq, text_beq_iff, nat_eq, ◌==◌, any,
  Instant, All, if◌then◌else◌,
}
use sundown.Engine.Change.{IsSafe}
use sundown.Engine.Reload.{refresh_system_apps}
use sundown.Engine.State.{EngineState, St, initial, emit_system}
use sundown.Engine.System.{System}
use sundown.Events.{EvLevel, EvAction}
use sundown.Policy.{Policy, is_critical}
use sundown.Rules.{empty_rules}

module _ (system : System) where
  open system use {
    Sys, now, uid_has_procs, frozen_uids, unfreeze_uid, read_frozen_state, clear_frozen_state,
    load_policy, load_presets,
  }

  -- DaemonState::init_engine
  abbrev with_loaded : Option Policy → EngineState → EngineState
  with_loaded none e = e
  with_loaded (some p) e = record e { policy = p }

  unfoldable pub init_engine : Sys → St Sys
  init_engine s =
      let st = refresh_system_apps system (record { eng = initial; sys = s }) in
      let e = with_loaded (load_policy st.sys) st.eng in
      record st { eng = record e { presets = load_presets st.sys } }

  -- a package of the last session whose uid is still frozen: managed again, or a leftover
  unfoldable pub restore : Text → St Sys → St Sys
  restore pkg st =
      let e = st.eng in record st { eng = record e { frozen = insert pkg (now st.sys) e.frozen } }

  unfoldable pub zombie_result : ℕ → Bool × Sys → St Sys → St Sys
  zombie_result uid (false, s) st = record st { sys = s }
  zombie_result uid (true, s) st =
      emit_system system EvLevel.warn EvAction.unfreeze (some (str "startup_zombie"))
        (some (str "uid=" ++ show_nat uid)) (record st { sys = s })

  unfoldable pub reconcile_one : List ℕ → Text × ℕ → St Sys → St Sys
  reconcile_one cgroup (pkg, uid) st =
      if not (any (λ u. u == uid) cgroup)
      then st
      else if uid_has_procs uid st.sys
      then restore pkg st
      else zombie_result uid (unfreeze_uid uid st.sys) st

  unfoldable pub reconcile_each : List ℕ → List (Text × ℕ) → St Sys → St Sys
  reconcile_each cgroup [] st = st
  reconcile_each cgroup (x ∷ xs) st = reconcile_each cgroup xs (reconcile_one cgroup x st)

  unfoldable pub reconcile : St Sys → St Sys
  reconcile st =
      let persisted = read_frozen_state st.sys in
      let e = st.eng in
      let st1 =
        reconcile_each (frozen_uids st.sys) persisted
          (record st { eng = record e { boot_reclaim_candidates = persisted } }) in
      record st1 { sys = clear_frozen_state st1.sys }

  -- the engine as the main loop finds it
  unfoldable pub startup : Sys → St Sys
  startup s = reconcile (init_engine s)
