-- ===== src/Engine/Wakeup.antt =====
-- The handler of the event wakeup: `on_wakeup` of daemon/src/engine.rs.
pub mod Laws
use sundown.Base.{
  ◌+◌, Bool, true, false, not, ◌&&◌, ◌||◌, Option, none, some, List, Text, str, get, insert, remove,
  contains_key, ◌==◌, text_eq, any, is_empty, ltb, Instant, from_secs, if◌then◌else◌,
}
use sundown.Engine.Flags.{keep_wakeup, mode_of}
use sundown.Engine.Focus.{cooldown_dur}
use sundown.Engine.State.{EngineState, St, emit, profile_update}
use sundown.Engine.System.{System}
use sundown.Events.{EvLevel, EvAction}
use sundown.Policy.{is_important_mode}
use sundown.Profile.{bump, profile_wakeup, profile_unfreeze}
use sundown.Rules
use sundown.Rules.{RuleAction, RuleHit, hit}

-- a gate that is not empty and lets the key not pass
abbrev pub shut_gate : List Text → Text → Bool
shut_gate gate key = not (is_empty gate) && not (any (λ a. a == key || a == str "*") gate)

-- the reason of the gate that holds a wakeup back
unfoldable pub gated : EngineState → Text → Text → Text → Option Text
gated e pkg source action =
    if is_important_mode (mode_of e.policy pkg) || not (contains_key pkg e.frozen)
    then none
    else if source == str "broadcast" && shut_gate e.policy.receiver_gate action
    then some (str "receiver_gated")
    else if source == str "service" && shut_gate e.policy.service_gate action
    then some (str "service_gated")
    else if source == str "pendingintent" && shut_gate e.policy.pendingintent_gate action
    then some (str "pendingintent_gated")
    else none

abbrev pub before_instant : Option Instant → Instant → Bool
before_instant none now = false
before_instant (some until) now = ltb now until

-- the throttle window of a frozen package is open
unfoldable pub wake_held : EngineState → Text → Instant → Bool
wake_held e pkg now =
    ltb 0 e.policy.wake_throttle_seconds
    && contains_key pkg e.frozen
    && before_instant (get pkg e.wake_throttle) now

-- `if throttle > 0 { self.wake_throttle.insert(..) }`
abbrev pub arm_throttle : Text → Instant → EngineState → EngineState
arm_throttle pkg now e =
    if ltb 0 e.policy.wake_throttle_seconds
    then record e {
      wake_throttle = insert pkg (now + from_secs e.policy.wake_throttle_seconds) e.wake_throttle;
    }
    else e

module _ (system : System) where
  open system use {Sys, now, epoch_secs, today, unfreeze_pkg_keep_oom}

  abbrev pub wake_event : EvLevel → EvAction → Text → Text → Option Text → St Sys → St Sys
  wake_event level action pkg reason msg st = emit system level action pkg (some reason) msg st

  unfoldable pub wake_result : Text → Instant → Bool × Sys → St Sys → St Sys
  unfolding emit profile_update
  wake_result pkg now (true, sys) st =
      let e = st.eng in
      let e1 = record e {
        unfreeze_ops = e.unfreeze_ops + 1;
        wakeup_thaws = e.wakeup_thaws + 1;
        adj_keep = insert pkg tt e.adj_keep;
      } in
      let st1 =
        profile_update system (profile_unfreeze (epoch_secs sys)) pkg
          (record { eng = e1; sys = sys }) in
      let st2 = record st1 { eng = arm_throttle pkg now st1.eng } in
      wake_event EvLevel.event EvAction.unfreeze pkg (str "wakeup") none st2
  wake_result pkg now (false, sys) st =
      wake_event EvLevel.warn EvAction.unfreeze pkg (str "wakeup_failed") none
        (record st { sys = sys })

  -- a frozen package is unfrozen, and cools down whether or not the write succeeded
  unfoldable pub wake_thaw : Text → Instant → St Sys → St Sys
  wake_thaw pkg now st =
      let e = st.eng in
      let woken =
        wake_result pkg now (unfreeze_pkg_keep_oom pkg st.sys)
          (record st { eng = record e { frozen = remove pkg e.frozen } }) in
      let w = woken.eng in
      record woken { eng = record w { cooldown = insert pkg (now + cooldown_dur w) w.cooldown } }

  -- the wakeup passed all tests: a frozen package is unfrozen, and its grace ends
  unfoldable pub wake_pass : Text → Instant → St Sys → St Sys
  wake_pass pkg now st =
      let st1 = if contains_key pkg st.eng.frozen then wake_thaw pkg now st else st in
      let e1 = st1.eng in record st1 { eng = record e1 { grace = remove pkg e1.grace } }

  -- from the gates on
  unfoldable pub wake_gates : Text → Text → Text → Instant → St Sys → St Sys
  unfolding emit
  wake_gates pkg source action now st = elim (gated st.eng pkg source action) [
    | some reason ↦ wake_event EvLevel.info EvAction.exempt pkg reason (some action) st
    | none ↦
        let e = st.eng in
        if wake_held e pkg now
        then wake_event EvLevel.info EvAction.exempt pkg (str "wakeup_throttled") (some source)
            (record st { eng = record e { wake_throttled = e.wake_throttled + 1 } })
        else wake_pass pkg now st
  ]

  -- a rule that is hit: only `suppress` holds the wakeup back
  unfoldable pub wake_action : RuleAction → Text → Text → Text → Text → Instant → St Sys → St Sys
  wake_action RuleAction.suppress id pkg source action now st =
      wake_event EvLevel.info EvAction.exempt pkg (str "rule_suppressed") (some id) st
  wake_action _ id pkg source action now st = wake_gates pkg source action now st

  unfoldable pub wake_hit : Option RuleHit → Text → Text → Text → Instant → St Sys → St Sys
  wake_hit none pkg source action now st = wake_gates pkg source action now st
  wake_hit (some h) pkg source action now st =
      let e = st.eng in
      wake_action h.action h.id pkg source action now
        (record st { eng = record e { rule_hits = e.rule_hits + 1 } })

  unfoldable pub wake_rules : Text → Text → Text → Instant → St Sys → St Sys
  wake_rules pkg source action now st =
      let e = st.eng in
      let r = hit e.rules pkg Rules.wakeup (some source) (today st.sys) now in
      wake_hit r.0 pkg source action now (record st { eng = record e { rules = r.1 } })

  -- EngineState::on_wakeup
  unfoldable pub on_wakeup : Text → Text → Text → St Sys → St Sys
  unfolding profile_update
  on_wakeup pkg source action st =
      let e = st.eng in
      let st1 =
        profile_update system (profile_wakeup source (epoch_secs st.sys)) pkg
          (record st { eng = record e { wakeup_sources = bump source e.wakeup_sources } }) in
      if not (keep_wakeup e.policy pkg)
      then wake_event EvLevel.info EvAction.exempt pkg (str "wakeup_ignored") none st1
      else wake_rules pkg source action (now st1.sys) st1
