-- ===== src/Engine/Wakeup/Laws.antt =====
-- What `on_wakeup` does on each of its branches.
use sundown.Base.{
  ◌+◌, Bool, true, false, not, ◌||◌, ◌≡◌, refl, arith, Text, contains_key, get-remove, text_eq,
  text_beq_iff, remove, Instant, Option, none, some, is_some,
}
use sundown.Engine.Change.{Change, IsSafe, IsSafe-Change}
use sundown.Engine.Flags.{keep_wakeup, mode_of}
use sundown.Policy.{is_important_mode}
use sundown.Engine.Wakeup.{
  on_wakeup, wake_rules, wake_hit, wake_action, wake_gates, wake_pass, wake_thaw, wake_result,
  gated, wake_held,
}
use sundown.Engine.State.{St, emit, profile_update}
use sundown.Engine.System.{System}
use sundown.Profile.{bump, profile_wakeup}
use sundown.Rules
use sundown.Rules.{RuleAction, RuleHit, hit}

module _ (system : System) (p q : Text) where
  open system use {Sys}

  wake_result-Change :
      (now : Instant) (r : Bool × Sys) (st : St Sys)
      → Change false q st.eng (wake_result system p now r st).eng
        × ((wake_result system p now r st).eng.frozen ≡ st.eng.frozen)
  unfolding wake_result
  wake_result-Change now (true, s) st = (ground arith, ground arith)
  wake_result-Change now (false, s) st = (ground arith, refl)

  wake_thaw-Change :
      (now : Instant) (st : St Sys)
      → Change false q st.eng (wake_thaw system p now st).eng
        × (contains_key p (wake_thaw system p now st).eng.frozen ≡ false)
  unfolding wake_thaw
  wake_thaw-Change now st =
      let e = st.eng in
      ground (
        arith,
        wake_result-Change now (system.unfreeze_pkg_keep_oom p st.sys)
            (record st { eng = record e { frozen = remove p e.frozen } }),
        get-remove p q e.frozen,
        get-remove p p e.frozen,
        text_beq_iff p p,
      )

  wake_pass-Change :
      (now : Instant) (st : St Sys)
      → Change false q st.eng (wake_pass system p now st).eng
        × (contains_key p (wake_pass system p now st).eng.frozen ≡ false)
        × (contains_key p (wake_pass system p now st).eng.grace ≡ false)
  unfolding wake_pass
  wake_pass-Change now st =
      let e = st.eng in
      let w = (wake_thaw system p now st).eng in
      ground (
        arith,
        wake_thaw-Change now st,
        get-remove p q e.grace,
        get-remove p p e.grace,
        get-remove p q w.grace,
        get-remove p p w.grace,
        text_beq_iff p p,
      )

abbrev pub suppresses : Option RuleHit → Bool
suppresses none = false
suppresses (some h) = elim h.action [ RuleAction.suppress ↦ true | _ ↦ false ]

-- Nothing that a wakeup could undo has changed, and the freezer was not called.
pub record Untouched {S : Type 0} (st st' : St S) : Type 0 where
  pub frozen : st'.eng.frozen ≡ st.eng.frozen
  pub grace : st'.eng.grace ≡ st.eng.grace
  pub cooldown : st'.eng.cooldown ≡ st.eng.cooldown
  pub adj_keep : st'.eng.adj_keep ≡ st.eng.adj_keep
  pub wake_throttle : st'.eng.wake_throttle ≡ st.eng.wake_throttle
  pub sys : st'.sys ≡ st.sys

module _ (system : System) (p source action : Text) where
  open system use {Sys}

  -- the counters and the profile, which every wakeup moves
  abbrev noted_wakeup : St Sys → St Sys
  noted_wakeup st =
      let e = st.eng in
      profile_update system (profile_wakeup source (system.epoch_secs st.sys)) p
        (record st { eng = record e { wakeup_sources = bump source e.wakeup_sources } })

  -- The reasons to hold a wakeup back, read off the state before it.
  abbrev pub held_back : St Sys → Bool
  held_back st =
      let e = st.eng in
      let now = system.now st.sys in
      not (keep_wakeup e.policy p)
      || suppresses (hit e.rules p Rules.wakeup (some source) (system.today st.sys) now).0
      || is_some (gated e p source action)
      || wake_held e p now

  -- the same for the part from the gates on
  wake_gates_held :
      (now : Instant) (st : St Sys)
      → (is_some (gated st.eng p source action) || wake_held st.eng p now) ≡ true
      → Untouched st (wake_gates system p source action now st)
  unfolding wake_gates emit
  wake_gates_held now st h = ground arith

  wake_gates_passed :
      (now : Instant) (st : St Sys)
      → (is_some (gated st.eng p source action) || wake_held st.eng p now) ≡ false
      → wake_gates system p source action now st ≡ wake_pass system p now st
  unfolding wake_gates emit
  wake_gates_passed now st h = ground arith

  wake_hit_held :
      (r : Option RuleHit) (now : Instant) (st : St Sys)
      → (suppresses r || is_some (gated st.eng p source action) || wake_held st.eng p now) ≡ true
      → Untouched st (wake_hit system r p source action now st)
  unfolding wake_hit wake_action gated wake_held emit
  wake_hit_held none now st h = wake_gates_held now st h
  wake_hit_held (some r) now st h =
      let e = st.eng in
      ground
        (arith, wake_gates_held now (record st { eng = record e { rule_hits = e.rule_hits + 1 } }))

  -- A wakeup that a setting, a suppress rule, a gate or the throttle holds back leaves the
  -- frozen, grace, cooldown, OOM and throttle tables and the system as they are.
  pub held_back-Untouched :
      (st : St Sys) → held_back st ≡ true → Untouched st (on_wakeup system p source action st)
  unfolding on_wakeup wake_rules gated wake_held emit profile_update
  held_back-Untouched st h =
      let e = st.eng in
      let now = system.now st.sys in
      let r = hit e.rules p Rules.wakeup (some source) (system.today st.sys) now in
      let noted = noted_wakeup st in
      let n = noted.eng in
      ground (arith, wake_hit_held r.0 now (record noted { eng = record n { rules = r.1 } }))

  wake_hit_passed :
      (r : Option RuleHit) (now : Instant) (q : Text) (st : St Sys)
      → (suppresses r || is_some (gated st.eng p source action) || wake_held st.eng p now) ≡ false
      → Change false q st.eng (wake_hit system r p source action now st).eng
        × (contains_key p (wake_hit system r p source action now st).eng.frozen ≡ false)
        × (contains_key p (wake_hit system r p source action now st).eng.grace ≡ false)
  unfolding wake_hit wake_action gated wake_held
  wake_hit_passed none now q st h =
      rw (wake_gates_passed now st h) (wake_pass-Change system p q now st)
  wake_hit_passed (some r) now q st h =
      let e = st.eng in
      let counted = record st { eng = record e { rule_hits = e.rule_hits + 1 } } in
      ground (arith, wake_gates_passed now counted, wake_pass-Change system p q now counted)

  -- A wakeup that nothing holds back leaves the package neither frozen nor waiting to be frozen.
  pub passed_thaws :
      (st : St Sys)
      → held_back st ≡ false
      → (contains_key p (on_wakeup system p source action st).eng.frozen ≡ false)
        × (contains_key p (on_wakeup system p source action st).eng.grace ≡ false)
  unfolding on_wakeup wake_rules gated wake_held
  passed_thaws st h =
      let e = st.eng in
      let now = system.now st.sys in
      let r = hit e.rules p Rules.wakeup (some source) (system.today st.sys) now in
      let noted = noted_wakeup st in
      let n = noted.eng in
      ground (arith, wake_hit_passed r.0 now p (record noted { eng = record n { rules = r.1 } }))

  wake_gates-Change :
      (now : Instant) (q : Text) (st : St Sys)
      → Change false q st.eng (wake_gates system p source action now st).eng
  unfolding wake_gates emit
  wake_gates-Change now q st = ground (arith, wake_pass-Change system p q now st)

  wake_hit-Change :
      (r : Option RuleHit) (now : Instant) (q : Text) (st : St Sys)
      → Change false q st.eng (wake_hit system r p source action now st).eng
  unfolding wake_hit wake_action emit
  wake_hit-Change none now q st = wake_gates-Change now q st
  wake_hit-Change (some r) now q st =
      let e = st.eng in
      let counted = record st { eng = record e { rule_hits = e.rule_hits + 1 } } in
      ground (arith, wake_gates-Change now q counted)

  -- A wakeup freezes nothing.
  pub on_wakeup-Change :
      (q : Text) (st : St Sys) → Change false q st.eng (on_wakeup system p source action st).eng
  unfolding on_wakeup wake_rules emit profile_update
  on_wakeup-Change q st =
      let e = st.eng in
      let now = system.now st.sys in
      let r = hit e.rules p Rules.wakeup (some source) (system.today st.sys) now in
      let noted = noted_wakeup st in
      let n = noted.eng in
      ground (arith, wake_hit-Change r.0 now q (record noted { eng = record n { rules = r.1 } }))

  pub on_wakeup-IsSafe :
      (st : St Sys) → IsSafe st.eng → IsSafe (on_wakeup system p source action st).eng
  on_wakeup-IsSafe st = IsSafe-Change (λ q. false) (λ f e. refl) (λ q. on_wakeup-Change q st)

  -- For a package in the important mode no gate and no keep_wakeup setting counts: what holds its
  -- wakeups back is a suppress rule or the throttle.
  pub held_back_important :
      (st : St Sys)
      → is_important_mode (mode_of st.eng.policy p) ≡ true
      → held_back st ≡ (
          suppresses
            (hit st.eng.rules p Rules.wakeup
              (some source)
              (system.today st.sys)
              (system.now st.sys)).0
          || wake_held st.eng p (system.now st.sys))
  unfolding keep_wakeup gated
  held_back_important st h = ground arith
