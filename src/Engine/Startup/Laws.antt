-- ===== src/Engine/Startup/Laws.antt =====
-- The engine that the main loop finds is well-formed, and what the start does not load.
use sundown.Base.{
  ℕ, true, false, ◌≡◌, arith, none, List, [], ◌∷◌, Text, contains_key, get-insert, get-empty,
  text_eq, text_beq_iff, Instant, All,
}
use sundown.Engine.Change.{IsSafe}
use sundown.Engine.Reload.{refresh_system_apps}
use sundown.Engine.Startup.{
  init_engine, restore, zombie_result, reconcile_one, reconcile_each, reconcile, startup,
}
use sundown.Engine.State.{EngineState, St, emit_system}
use sundown.Engine.System.{System}
use sundown.Policy.{is_critical}
use sundown.Rules.{empty_rules}

-- The set that the last session wrote has no critical package.
abbrev pub HasNoCritical : List (Text × ℕ) → Type 0
HasNoCritical l = All (λ x. is_critical x.0 ≡ false) l

-- Nothing is in the foreground, no grace runs, and no critical package is frozen.
record IsFresh (e : EngineState) : Type 0 where
  calm : e.last_focus ≡ none
  idle : e.grace ≡ []
  none_discarded : e.discarded ≡ []
  thawed : (q : Text) → is_critical q ≡ true → contains_key q e.frozen ≡ false

module _ (system : System) where
  open system use {Sys}

  reconcile_one-IsFresh :
      (cgroup : List ℕ) (x : Text × ℕ) (st : St Sys)
      → is_critical x.0 ≡ false
      → IsFresh st.eng
      → IsFresh (reconcile_one system cgroup x st).eng
  unfolding reconcile_one restore zombie_result emit_system
  reconcile_one-IsFresh cgroup (p, uid) st h f = record {
    calm = ground (arith, f.calm);
    idle = ground (arith, f.idle);
    none_discarded = ground (arith, f.none_discarded);
    thawed = λ q c.
        let e = st.eng in
        ground (arith, f.thawed q c, get-insert p q (system.now st.sys) e.frozen, text_beq_iff p q);
  }

  reconcile_each-IsFresh :
      (cgroup : List ℕ) (xs : List (Text × ℕ)) (st : St Sys)
      → HasNoCritical xs
      → IsFresh st.eng
      → IsFresh (reconcile_each system cgroup xs st).eng
  unfolding reconcile_each
  reconcile_each-IsFresh cgroup [] st h f = f
  reconcile_each-IsFresh cgroup (x ∷ xs) st h f =
      reconcile_each-IsFresh cgroup xs (reconcile_one system cgroup x st) h.1
        (reconcile_one-IsFresh cgroup x st h.0 f)

  init_engine-IsFresh : (s : Sys) → IsFresh (init_engine system s).eng
  unfolding init_engine refresh_system_apps
  init_engine-IsFresh s = record {
    calm = ground arith;
    idle = ground arith;
    none_discarded = ground arith;
    thawed = λ q c. ground (arith, get-empty {V = Instant} q);
  }

  reconcile_each-rules :
      (cgroup : List ℕ) (xs : List (Text × ℕ)) (st : St Sys)
      → ((reconcile_each system cgroup xs st).eng.rules ≡ st.eng.rules)
        × ((reconcile_each system cgroup xs st).eng.presets ≡ st.eng.presets)
  unfolding reconcile_each reconcile_one restore zombie_result emit_system
  reconcile_each-rules cgroup [] st = ground arith
  reconcile_each-rules cgroup ((p, uid) ∷ xs) st =
      ground (arith, reconcile_each-rules cgroup xs (reconcile_one system cgroup (p, uid) st))

  -- The engine that the main loop starts with has the presets on disk, and an empty rule table
  -- whatever is on disk.
  pub init_engine_rules :
      (s : Sys)
      → let e = (startup system s).eng in
        (e.rules ≡ empty_rules) × (e.presets ≡ system.load_presets s)
  unfolding startup init_engine refresh_system_apps reconcile
  init_engine_rules s =
      let st = init_engine system s in
      let e = st.eng in
      let persisted = system.read_frozen_state st.sys in
      ground (
        arith,
        reconcile_each-rules (system.frozen_uids st.sys) persisted
            (record st { eng = record e { boot_reclaim_candidates = persisted } }),
      )

  pub startup-IsSafe :
      (s : Sys) → HasNoCritical (system.read_frozen_state s) → IsSafe (startup system s).eng
  unfolding startup reconcile init_engine refresh_system_apps
  startup-IsSafe s h =
      let st = init_engine system s in
      let e = st.eng in
      let f = init_engine-IsFresh s in
      let r =
        reconcile_each-IsFresh (system.frozen_uids st.sys) (system.read_frozen_state st.sys)
          (record st {
            eng = record e { boot_reclaim_candidates = system.read_frozen_state st.sys };
          })
          h
          (record {
            calm = f.calm;
            idle = f.idle;
            none_discarded = f.none_discarded;
            thawed = f.thawed;
          }) in
      record {
        focus_thawed = λ f e. ground (arith, r.calm);
        focus_active = λ f e. ground (arith, r.calm);
        critical_thawed = λ q c. r.thawed q c;
        short = ground (arith, r.none_discarded);
      }
