-- ===== src/Engine/Freeze/Adds.antt =====
-- What a decision to freeze may change: the frozen table and the grace table gain at most one
-- package, and never a critical one in the frozen table.
use sundown.Base.{
  ◌+◌, str, false, arith, Text, get-insert, get-remove, ◌==◌, text_eq, text_beq_iff, Instant,
  Option, none, some,
}
use sundown.Engine.Change.{Change}
use sundown.Engine.Freeze.{
  freeze_now, leave_timed, leave_action, leave_hit, leave_rules, leave_network, decide_leave,
  grace_of,
}
use sundown.Engine.Flags.{high_network, any_network}
use sundown.Engine.State.{St, emit}
use sundown.Engine.System.{System}
use sundown.Events.{EvLevel, EvAction}
use sundown.Rules
use sundown.Rules.{RuleAction, RuleHit, hit}

module _ (system : System) (p q : Text) (now : Instant) where
  open system use {Sys}

  pub freeze_now-Change :
      (reason : Text) (st : St Sys)
      → Change (p == q) q st.eng (freeze_now system p now reason st).eng
  unfolding freeze_now
  freeze_now-Change reason st =
      ground
        (arith, get-insert p q now st.eng.frozen, get-remove p q st.eng.grace, text_beq_iff p q)

  leave_timed-Change : (st : St Sys) → Change (p == q) q st.eng (leave_timed system p now st).eng
  unfolding leave_timed
  leave_timed-Change st = ground (
    arith,
    freeze_now-Change (str "force") st,
    get-insert p q (now, grace_of st.eng.policy p) st.eng.grace,
    text_beq_iff p q,
  )

  leave_action-Change :
      (a : RuleAction) (id : Text) (st : St Sys)
      → Change (p == q) q st.eng (leave_action system a id p now st).eng
  unfolding leave_action emit
  leave_action-Change RuleAction.exempt id st = ground arith
  leave_action-Change RuleAction.freeze id st = ground (
    arith,
    freeze_now-Change (str "rule")
        (emit system EvLevel.event EvAction.delay p (some (str "rule_freeze")) (some id) st),
  )
  leave_action-Change _ id st = leave_timed-Change st

  leave_hit-Change :
      (h : Option RuleHit) (st : St Sys)
      → Change (p == q) q st.eng (leave_hit system h p now st).eng
  unfolding leave_hit
  leave_hit-Change none st = leave_timed-Change st
  leave_hit-Change (some h) st =
      let e = st.eng in
      let hit = record st { eng = record e { rule_hits = e.rule_hits + 1 } } in
      ground (arith, leave_action-Change h.action h.id hit)

  leave_rules-Change : (st : St Sys) → Change (p == q) q st.eng (leave_rules system p now st).eng
  unfolding leave_rules
  leave_rules-Change st =
      let e = st.eng in
      let r = hit e.rules p Rules.leave none (system.today st.sys) now in
      ground (arith, leave_hit-Change r.0 (record st { eng = record e { rules = r.1 } }))

  -- the network tests touch the sampler's baselines alone
  pub high_network-Change : (st : St Sys) → Change false q st.eng (high_network system p st).1.eng
  unfolding high_network
  high_network-Change st = ground arith

  pub any_network-Change : (st : St Sys) → Change false q st.eng (any_network system p st).1.eng
  unfolding any_network
  any_network-Change st = ground arith

  leave_network-Change :
      (st : St Sys) → Change (p == q) q st.eng (leave_network system p now st).eng
  unfolding leave_network emit
  leave_network-Change st =
      let st1 = (high_network system p st).1 in
      let st2 = (any_network system p st1).1 in
      ground (arith, high_network-Change st, any_network-Change st1, leave_rules-Change st2)

  pub decide_leave-Change :
      (st : St Sys) → Change (p == q) q st.eng (decide_leave system p now st).eng
  unfolding decide_leave emit
  decide_leave-Change st = ground (arith, leave_network-Change st)
