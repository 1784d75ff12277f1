-- ===== src/Engine/Tick/Safe.antt =====
-- The theorems about `tick` as a whole: the invariant, the end of the graces, the observation
-- mode.
use sundown.Base.{
  ◌+◌, true, false, not, ◌≡◌, arith, Text, contains_key, text_eq, text_beq_iff, keys, get, Instant,
  List, [], ◌∷◌, some, ℕ, if◌then◌else◌, Bool-cases, get-empty, inl, inr,
}
use sundown.Engine.Tick.Laws.{rest-Change, tick_enabled-Change}
use sundown.Engine.Change.{Change, IsSafe, IsSafe-Change}
use sundown.Engine.Discard.{is_focus}
use sundown.Engine.Expire.{due, grace_due, grace_expire_all}
use sundown.Engine.Expire.Laws.{grace_expire_all-grace, grace_due-any}
use sundown.Engine.Persist.{
  lock_system_chain_oom, persist_frozen_if_changed, persist_events, persist_written,
}
use sundown.Engine.State.{St, emit_system}
use sundown.Engine.System.{System}
use sundown.Engine.Triggers.{every}
use sundown.Engine.Tick.{
  unfreeze_each, unfreeze_noted, tick_disabled, tick_enabled, tick_body, tick,
}

module _ (system : System) where
  open system use {Sys}

  unfreeze_each-Change :
      (ps : List Text) (st : St Sys)
      → ((unfreeze_each system ps st).eng.last_focus ≡ st.eng.last_focus)
        × ((unfreeze_each system ps st).eng.discarded ≡ st.eng.discarded)
        × ((unfreeze_each system ps st).eng.tick_count ≡ st.eng.tick_count)
  unfolding unfreeze_each
  unfreeze_each-Change [] st = ground arith
  unfreeze_each-Change (p ∷ ps) st =
      let e = st.eng in
      let r = system.unfreeze_pkg p st.sys in
      ground (
        arith,
        unfreeze_each-Change ps (record {
          eng = record e { unfreeze_ops = (if r.0 then e.unfreeze_ops + 1 else e.unfreeze_ops) };
          sys = r.1;
        }),
      )

  unfreeze_noted-Change :
      (ps : List Text) (st : St Sys)
      → ((unfreeze_noted system ps st).eng.last_focus ≡ st.eng.last_focus)
        × ((unfreeze_noted system ps st).eng.discarded ≡ st.eng.discarded)
        × ((unfreeze_noted system ps st).eng.tick_count ≡ st.eng.tick_count)
  unfolding unfreeze_noted emit_system
  unfreeze_noted-Change [] st = ground arith
  unfreeze_noted-Change (p ∷ ps) st = unfreeze_each-Change (p ∷ ps) st

  -- A tick with the policy disabled empties the frozen, grace, cooldown and OOM tables, keeps the
  -- foreground and the list of discarded packages, and is not counted.
  pub tick_disabled_lem :
      (st : St Sys)
      → st.eng.policy.enabled ≡ false
      → let e' = (tick system st).eng in
        (e'.frozen ≡ [])
        × (e'.grace ≡ [])
        × (e'.cooldown ≡ [])
        × (e'.adj_keep ≡ [])
        × (e'.last_focus ≡ st.eng.last_focus)
        × (e'.discarded ≡ st.eng.discarded)
        × (e'.tick_count ≡ st.eng.tick_count)
  unfolding tick tick_body tick_disabled persist_events persist_written persist_frozen_if_changed
      lock_system_chain_oom
  tick_disabled_lem st h =
      let locked = lock_system_chain_oom system st in
      ground (
        arith,
        unfreeze_noted-Change (keys st.eng.frozen) st,
        unfreeze_noted-Change (keys st.eng.frozen) locked,
      )

  lock-Change :
      (q : Text) (st : St Sys)
      → let l = if every 5 st.eng then lock_system_chain_oom system st else st in
        Change false q st.eng l.eng × (l.eng.policy ≡ st.eng.policy) × (l.eng.grace ≡ st.eng.grace)
  unfolding lock_system_chain_oom
  lock-Change q st = ground arith

  tick_enabled_step :
      (q : Text) (st : St Sys)
      → st.eng.policy.enabled ≡ true
      → Change (not (is_focus st.eng.last_focus q)) q st.eng (tick system st).eng
  unfolding tick tick_body
  tick_enabled_step q st h =
      let l = if every 5 st.eng then lock_system_chain_oom system st else st in
      ground (arith, lock-Change q st, tick_enabled-Change system q (system.now st.sys) l)

  -- A tick keeps the invariant.
  pub tick-IsSafe : (st : St Sys) → IsSafe st.eng → IsSafe (tick system st).eng
  tick-IsSafe st h = elim (Bool-cases st.eng.policy.enabled) [
    | inl y ↦
        IsSafe-Change (λ q. not (is_focus st.eng.last_focus q))
          (λ f e. ground (arith, text_beq_iff f f)) (λ q. tick_enabled_step q st y) h
    | inr n ↦
        let d = tick_disabled_lem st n in
        record {
          focus_thawed = λ f e. ground (arith, d, get-empty {V = Instant} f);
          focus_active = λ f e. ground (arith, d, get-empty {V = Instant × ℕ} f);
          critical_thawed = λ q e. ground (arith, d, get-empty {V = Instant} q);
          short = ground (arith, d, h.short);
        }
  ]

  -- After a tick with the policy enabled, a package whose grace had run out before it is not
  -- waiting any more.
  pub tick_overdue :
      (q : Text) (g : Instant × ℕ) (st : St Sys)
      → st.eng.policy.enabled ≡ true
      → get q st.eng.grace ≡ some g
      → due (system.now st.sys) g ≡ true
      → contains_key q (tick system st).eng.grace ≡ false
  unfolding tick tick_body tick_enabled lock_system_chain_oom
  tick_overdue q g st h k o =
      let l = if every 5 st.eng then lock_system_chain_oom system st else st in
      let now = system.now st.sys in
      let ps = grace_due now st.eng.grace in
      ground (
        arith,
        grace_due-any now q g st.eng.grace,
        grace_expire_all-grace system ps now q l,
        rest-Change system q now (grace_expire_all system ps now l),
      )
