-- ===== src/Engine/Triggers.antt =====
-- The triggers of a discard in `tick` of daemon/src/engine.rs: a rule, the timeout, the memory
-- watermark, and the reclaim after boot.
pub mod Laws
use sundown.Base.{
  ℕ, ◌-◌, ◌%◌, Bool, true, false, not, ◌&&◌, Option, none, some, List, [], ◌∷◌, Text, str, get,
  keys, ◌==◌, nat_eq, text_eq, is_empty, filterb, unwrap_or, ltb, leb, Instant, from_secs, is_some,
  if◌then◌else◌,
}
use sundown.Engine.Discard.{
  discard_pkg, discard_all, expired_discard_candidates, sort_discard_candidates,
  boot_reclaim_execute,
}
use sundown.Engine.State.{EngineState, St}
use sundown.Engine.System.{System}
use sundown.Policy.{saturating_mul}
use sundown.Rules
use sundown.Rules.{RuleAction, RuleHit, RuleTable, peek}

-- `tick_count % n == 0`
abbrev pub every : ℕ → EngineState → Bool
every n e = e.tick_count % n == 0

module _ (system : System) where
  open system use {
    Sys, now, today, pkg_uid, uid_has_procs, unfreeze_pkg, unfreeze_pkg_keep_oom, protect_oom,
    restore_oom_pkg, mem_available_kb, boot_completed,
  }

  -- the rule that discards: threshold and age
  abbrev pub old_enough : Option Instant → ℕ → Instant → Bool
  old_enough none threshold t = false
  old_enough (some since) threshold t = leb (from_secs threshold) (t - since)

  unfoldable pub discard_hit : Option RuleHit → EngineState → Text → Instant → Bool
  discard_hit none e p t = false
  discard_hit (some h) e p t = elim h.action [
    | RuleAction.discard ↦
        let threshold = unwrap_or h.after_seconds e.policy.discard_frozen_timeout_seconds in
        ltb 0 threshold && old_enough (get p e.frozen) threshold t
    | _ ↦ false
  ]

  unfoldable pub rule_chosen : Instant → St Sys → List Text
  unfolding discard_hit
  rule_chosen t st =
      let e = st.eng in
      filterb (λ p. discard_hit (peek e.rules p Rules.always none (today st.sys) t) e p t)
        (keys e.frozen)

  unfoldable pub rule_discards : Instant → St Sys → St Sys
  rule_discards t st =
      let e = st.eng in
      if every 10 e && not (is_empty e.rules.rules)
      then discard_all system (str "rule_discard") (rule_chosen t st) st
      else st

  unfoldable pub timeout_discards : Instant → St Sys → St Sys
  timeout_discards t st =
      let e = st.eng in
      if every 10 e && ltb 0 e.policy.discard_frozen_timeout_seconds
      then discard_all system (str "frozen_timeout") (expired_discard_candidates e t) st
      else st

  -- `mem_available_kb().map(|a| a >= watermark_kb).unwrap_or(true)`
  abbrev pub recovered : Option ℕ → ℕ → Bool
  recovered none watermark = true
  recovered (some a) watermark = leb watermark a

  unfoldable pub watermark_kb : EngineState → ℕ
  watermark_kb e = saturating_mul e.policy.discard_mem_watermark_mb 1024

  unfoldable pub discard_until : ℕ → List Text → St Sys → St Sys
  discard_until watermark [] st = st
  discard_until watermark (p ∷ ps) st =
      let more = discard_until watermark ps (discard_pkg system p (str "mem_watermark") st).1 in
      if recovered (mem_available_kb st.sys) watermark then st else more

  unfoldable pub memory_discards : St Sys → St Sys
  memory_discards st =
      let e = st.eng in
      let watermark = watermark_kb e in
      if every 20 e
        && (ltb 0 e.policy.discard_mem_watermark_mb
            && (not (is_empty e.frozen) && not (recovered (mem_available_kb st.sys) watermark)))
      then discard_until watermark (sort_discard_candidates system st) st
      else st

  -- the reclaim after boot: the detection, and one run after the delay
  unfoldable pub boot_detect : St Sys → St Sys
  boot_detect st =
      let e = st.eng in
      if every 100 e && (not (is_some e.boot_completed_at) && boot_completed st.sys)
      then record st { eng = record e { boot_completed_at = some (now st.sys) } }
      else st

  abbrev pub delay_over : Option Instant → ℕ → Instant → Bool
  delay_over none delay t = false
  delay_over (some at) delay t = leb (from_secs delay) (t - at)

  abbrev pub reclaimed : St Sys → St Sys
  reclaimed st = let e = st.eng in record st { eng = record e { boot_reclaim_done = true } }

  unfoldable pub boot_reclaim : Instant → St Sys → St Sys
  boot_reclaim t st =
      let e = st.eng in
      if e.policy.discard_boot_reclaim
        && (not e.boot_reclaim_done
            && delay_over e.boot_completed_at e.policy.discard_boot_reclaim_delay_seconds t)
      then reclaimed (boot_reclaim_execute system st)
      else st

  -- the three triggers of a discard
  unfoldable pub discards : Instant → St Sys → St Sys
  discards t st =
      boot_reclaim t (boot_detect (memory_discards (timeout_discards t (rule_discards t st))))
