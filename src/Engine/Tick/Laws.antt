-- ===== src/Engine/Tick/Laws.antt =====
-- What `tick` does to the tables, part by part and as a whole.
use sundown.Base.{
  false, not, arith, Text, get-remove, text_eq, keys, Instant, List, [], ◌∷◌, filterb,
}
use sundown.Engine.Change.{Change, Change-refl, Change-trans}
use sundown.Engine.Discard.{is_focus}
use sundown.Engine.Expire.{grace_due, grace_expire_all}
use sundown.Engine.Expire.Laws.{grace_expire_all-Change}
use sundown.Engine.Flags.{any_network}
use sundown.Engine.Freeze.Adds.{any_network-Change}
use sundown.Engine.Persist.{persist_frozen_if_changed, persist_events, persist_written}
use sundown.Engine.State.{St, emit}
use sundown.Engine.System.{System}
use sundown.Engine.Triggers.{discards}
use sundown.Engine.Triggers.Laws.{discards-Change}
use sundown.Engine.Tick.{
  drop_dead, drop_one, relock_frozen, restore_focus, restore_one, sample_frozen, net_wake_one,
  net_wake_all, net_wakeups, clean_cooldown, clean_dead, count_tick, tick_enabled, has_no_procs,
}

module _ (system : System) (q : Text) where
  open system use {Sys}

  drop_one-Change : (p : Text) (st : St Sys) → Change false q st.eng (drop_one system p st).eng
  unfolding drop_one emit
  drop_one-Change p st = let e = st.eng in ground (arith, get-remove p q e.frozen)

  drop_dead-Change :
      (ps : List Text) (st : St Sys) → Change false q st.eng (drop_dead system ps st).eng
  unfolding drop_dead
  drop_dead-Change [] st = Change-refl false q st.eng
  drop_dead-Change (p ∷ ps) st =
      Change-trans (drop_one-Change p st) (drop_dead-Change ps (drop_one system p st))

  clean_dead-Change : (st : St Sys) → Change false q st.eng (clean_dead system st).eng
  unfolding clean_dead
  clean_dead-Change st =
      drop_dead-Change (filterb (has_no_procs system st.sys) (keys st.eng.frozen)) st

  relock_frozen-Change : (st : St Sys) → Change false q st.eng (relock_frozen system st).eng
  unfolding relock_frozen
  relock_frozen-Change st = ground arith

  restore_one-Change :
      (p : Text) (st : St Sys) → Change false q st.eng (restore_one system p st).eng
  unfolding restore_one
  restore_one-Change p st = ground arith

  restore_focus-Change :
      (ps : List Text) (st : St Sys) → Change false q st.eng (restore_focus system ps st).eng
  unfolding restore_focus
  restore_focus-Change [] st = Change-refl false q st.eng
  restore_focus-Change (p ∷ ps) st =
      Change-trans (restore_one-Change p st) (restore_focus-Change ps (restore_one system p st))

  sample_frozen-Change :
      (ps : List Text) (st : St Sys) → Change false q st.eng (sample_frozen system ps st).1.eng
  unfolding sample_frozen
  sample_frozen-Change [] st = Change-refl false q st.eng
  sample_frozen-Change (p ∷ ps) st =
      let st1 = (any_network system p st).1 in
      ground
        (arith, any_network-Change system p q (system.now st.sys) st, sample_frozen-Change ps st1)

  net_wake_one-Change :
      (p : Text) (st : St Sys) → Change false q st.eng (net_wake_one system p st).eng
  unfolding net_wake_one
  net_wake_one-Change p st =
      let e = st.eng in ground (arith, get-remove p q e.frozen, get-remove p q e.grace)

  net_wake_all-Change :
      (ps : List Text) (st : St Sys) → Change false q st.eng (net_wake_all system ps st).eng
  unfolding net_wake_all
  net_wake_all-Change [] st = Change-refl false q st.eng
  net_wake_all-Change (p ∷ ps) st =
      Change-trans (net_wake_one-Change p st) (net_wake_all-Change ps (net_wake_one system p st))

  net_wakeups-Change : (st : St Sys) → Change false q st.eng (net_wakeups system st).eng
  unfolding net_wakeups
  net_wakeups-Change st =
      let r = sample_frozen system (keys st.eng.frozen) st in
      ground (arith, sample_frozen-Change (keys st.eng.frozen) st, net_wake_all-Change r.0 r.1)

  persist_frozen-Change :
      (st : St Sys) → Change false q st.eng (persist_frozen_if_changed system st).eng
  unfolding persist_frozen_if_changed
  persist_frozen-Change st = ground arith

  persist_events-Change : (st : St Sys) → Change false q st.eng (persist_events system st).eng
  unfolding persist_events persist_written
  persist_events-Change st = ground arith

  clean_cooldown-Change :
      (t : Instant) (st : St Sys) → Change false q st.eng (clean_cooldown system t st).eng
  clean_cooldown-Change t st = ground arith

  -- the parts of an enabled tick behind the graces
  abbrev pub rest : Instant → St Sys → St Sys
  rest t st =
      let st2 =
        relock_frozen system (discards system t (clean_dead system (clean_cooldown system t st))) in
      let st3 = count_tick system (restore_focus system (keys st2.eng.adj_keep) st2) in
      persist_events system (persist_frozen_if_changed system (net_wakeups system st3))

  pub rest-Change : (t : Instant) (st : St Sys) → Change false q st.eng (rest t st).eng
  rest-Change t st =
      let a = clean_cooldown system t st in
      let b = clean_dead system a in
      let c = discards system t b in
      let d = relock_frozen system c in
      let f = restore_focus system (keys d.eng.adj_keep) d in
      let g = count_tick system f in
      let h = net_wakeups system g in
      ground (
        arith,
        clean_dead-Change a,
        discards-Change system q t b,
        relock_frozen-Change c,
        restore_focus-Change (keys d.eng.adj_keep) d,
        net_wakeups-Change g,
        persist_frozen-Change h,
        persist_events-Change (persist_frozen_if_changed system h),
      )

  pub tick_enabled-Change :
      (t : Instant) (st : St Sys)
      → Change (not (is_focus st.eng.last_focus q)) q st.eng (tick_enabled system t st).eng
  unfolding tick_enabled
  tick_enabled-Change t st =
      let e = st.eng in
      let st1 = grace_expire_all system (grace_due t e.grace) t st in
      ground (arith, grace_expire_all-Change system (grace_due t e.grace) t q st, rest-Change t st1)
