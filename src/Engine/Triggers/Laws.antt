-- ===== src/Engine/Triggers/Laws.antt =====
-- The triggers of a discard freeze nothing: each is a run of `discard_pkg`.
use sundown.Base.{false, arith, Text, Instant, ℕ, List, [], ◌∷◌, str}
use sundown.Engine.Change.{Change, Change-refl}
use sundown.Engine.Discard.{discard_pkg, expired_discard_candidates, sort_discard_candidates}
use sundown.Engine.Discard.Laws.{
  discard_pkg-Change, discard_all-Change, boot_reclaim_execute-Change,
}
use sundown.Engine.State.{St}
use sundown.Engine.System.{System}
use sundown.Engine.Triggers.{
  rule_chosen, watermark_kb, rule_discards, timeout_discards, discard_until, memory_discards,
  boot_detect, boot_reclaim, discards,
}

module _ (system : System) (q : Text) where
  open system use {Sys}

  rule_discards-Change :
      (t : Instant) (st : St Sys) → Change false q st.eng (rule_discards system t st).eng
  unfolding rule_discards
  rule_discards-Change t st =
      ground (arith, discard_all-Change system (str "rule_discard") (rule_chosen system t st) q st)

  timeout_discards-Change :
      (t : Instant) (st : St Sys) → Change false q st.eng (timeout_discards system t st).eng
  unfolding timeout_discards
  timeout_discards-Change t st =
      let e = st.eng in
      ground (
        arith,
        discard_all-Change system (str "frozen_timeout") (expired_discard_candidates e t) q st,
      )

  discard_until-Change :
      (w : ℕ) (ps : List Text) (st : St Sys)
      → Change false q st.eng (discard_until system w ps st).eng
  unfolding discard_until
  discard_until-Change w [] st = Change-refl false q st.eng
  discard_until-Change w (p ∷ ps) st =
      let st1 = (discard_pkg system p (str "mem_watermark") st).1 in
      ground (
        arith,
        discard_pkg-Change system p (str "mem_watermark") q st,
        discard_until-Change w ps st1,
      )

  memory_discards-Change : (st : St Sys) → Change false q st.eng (memory_discards system st).eng
  unfolding memory_discards
  memory_discards-Change st = ground (
    arith,
    let e = st.eng in
        discard_until-Change (watermark_kb system e) (sort_discard_candidates system st) st,
  )

  boot_detect-Change : (st : St Sys) → Change false q st.eng (boot_detect system st).eng
  unfolding boot_detect
  boot_detect-Change st = ground arith

  boot_reclaim-Change :
      (t : Instant) (st : St Sys) → Change false q st.eng (boot_reclaim system t st).eng
  unfolding boot_reclaim
  boot_reclaim-Change t st = ground (arith, boot_reclaim_execute-Change system q st)

  pub discards-Change :
      (t : Instant) (st : St Sys) → Change false q st.eng (discards system t st).eng
  unfolding discards
  discards-Change t st =
      let st1 = rule_discards system t st in
      let st2 = timeout_discards system t st1 in
      let st3 = memory_discards system st2 in
      let st4 = boot_detect system st3 in
      ground (
        arith,
        rule_discards-Change t st,
        timeout_discards-Change t st1,
        memory_discards-Change st2,
        boot_detect-Change st3,
        boot_reclaim-Change t st4,
      )
