-- ===== src/Engine/Reload/Laws.antt =====
-- What a reload and the presets do to the tables and to the policy.
use sundown.Base.{
  Bool, true, false, not, ◌&&◌, ◌≡◌, refl, arith, Text, contains_key, get, get-remove, any-keys,
  is_some, str, keys, text_eq, text_beq_iff, any, filterb, List, [], ◌∷◌, Option, none, some, ◌==◌,
  if◌then◌else◌,
}
use sundown.Engine.Change.{Change, Change-refl}
use sundown.Engine.Flags.{should_never_freeze}
use sundown.Engine.Reload.{
  refresh_system_apps, reload_rules, thaw_protected, thaw_all, newly_protected, with_policy,
  reload_loaded, reload_policy, apply_known, apply_preset, clear_preset, note_clear, overlay_preset,
}
use sundown.Engine.State.{St, emit, emit_system}
use sundown.Engine.System.{System}
use sundown.Policy.{Policy}
use sundown.Preset.{Preset}
use sundown.Rules.{RuleTable}

module _ (system : System) (q : Text) where
  open system use {Sys}

  thaw_protected-frozen :
      (p : Text) (st : St Sys)
      → Change false q st.eng (thaw_protected system p st).eng
        × (contains_key q (thaw_protected system p st).eng.frozen ≡ true
            → (contains_key q st.eng.frozen && not (p == q)) ≡ true)
  unfolding thaw_protected emit
  thaw_protected-frozen p st =
      let e = st.eng in ground (arith, get-remove p q e.frozen, get-remove p q e.grace)

  thaw_all-frozen :
      (ps : List Text) (st : St Sys)
      → Change false q st.eng (thaw_all system ps st).eng
        × (contains_key q (thaw_all system ps st).eng.frozen ≡ true
            → (contains_key q st.eng.frozen && not (any (λ x. x == q) ps)) ≡ true)
  unfolding thaw_all
  thaw_all-frozen [] st = ground arith
  thaw_all-frozen (p ∷ ps) st =
      let st1 = thaw_protected system p st in
      ground (arith, thaw_protected-frozen p st, thaw_all-frozen ps st1)

  reload_rules-Change :
      (r : Option RuleTable) (st : St Sys) → Change false q st.eng (reload_rules system r st).eng
  unfolding reload_rules emit_system
  reload_rules-Change none st = Change-refl false q st.eng
  reload_rules-Change (some rt) st = ground arith

  with_policy-Change :
      (p : Policy) (st : St Sys) → Change false q st.eng (with_policy system p st).eng
  unfolding with_policy emit_system
  with_policy-Change p st = ground arith

  reload_loaded-Change :
      (p : Option Policy) (st : St Sys) → Change false q st.eng (reload_loaded system p st).eng
  unfolding reload_loaded emit_system
  reload_loaded-Change none st = ground arith
  reload_loaded-Change (some p) st =
      let st1 = with_policy system p st in
      ground (arith, with_policy-Change p st, thaw_all-frozen (newly_protected system st1) st1)

  -- the state whose policy, rules and protection list a reload decides by
  abbrev pub before_load : St Sys → St Sys
  before_load st =
      let st1 = refresh_system_apps system st in
      let e = st1.eng in
      let st2 = record st1 { eng = record e { presets = system.load_presets st1.sys } } in
      reload_rules system (system.load_rules st2.sys) st2

  before_load-Change : (st : St Sys) → Change false q st.eng (before_load st).eng
  unfolding refresh_system_apps
  before_load-Change st =
      let st1 = refresh_system_apps system st in
      let e = st1.eng in
      let st2 = record st1 { eng = record e { presets = system.load_presets st1.sys } } in
      ground (arith, reload_rules-Change (system.load_rules st2.sys) st2)

  -- A reload freezes nothing.
  pub reload_policy-Change : (st : St Sys) → Change false q st.eng (reload_policy system st).eng
  unfolding reload_policy
  reload_policy-Change st =
      let b = before_load st in
      ground (arith, before_load-Change st, reload_loaded-Change (system.load_policy b.sys) b)

  apply_known-Change :
      (p : Option Preset) (name : Text) (st : St Sys)
      → Change false q st.eng (apply_known system p name st).1.eng
  unfolding apply_known emit_system
  apply_known-Change none name st = Change-refl false q st.eng
  apply_known-Change (some p) name st = ground arith

  pub apply_preset-Change :
      (name : Text) (st : St Sys) → Change false q st.eng (apply_preset system name st).1.eng
  unfolding apply_preset
  apply_preset-Change name st = apply_known-Change (get name st.eng.presets.presets) name st

  pub clear_preset-Change : (st : St Sys) → Change false q st.eng (clear_preset system st).eng
  unfolding clear_preset emit_system
  clear_preset-Change st = ground arith

any-filterb_keys :
    (f : Text → Bool) (q : Text) (l : List Text)
    → any (λ x. x == q) l ≡ true
    → f q ≡ true
    → any (λ x. x == q) (filterb f l) ≡ true
any-filterb_keys f q [] h k = h
any-filterb_keys f q (x ∷ l) h k = ground (arith, any-filterb_keys f q l, text_beq_iff x q)

module _ (system : System) where
  open system use {Sys}

  -- the state under the policy that was loaded, before anything is unfrozen
  abbrev pub reloaded : Policy → St Sys → St Sys
  reloaded p st = with_policy system p (before_load system (str "") st)

  -- When the policy loads, a package that is frozen after the reload was frozen before it, and is
  -- not one that the new configuration never freezes.
  pub reload_policy_thaws :
      (p : Policy) (q : Text) (st : St Sys)
      → system.load_policy st.sys ≡ some p
      → contains_key q (reload_policy system st).eng.frozen ≡ true
      → (contains_key q st.eng.frozen ≡ true)
        × (should_never_freeze system q (reloaded p st) ≡ false)
  unfolding reload_policy reload_loaded newly_protected refresh_system_apps reload_rules with_policy
      emit_system
  reload_policy_thaws p q st h k =
      let r = reloaded p st in
      ground (
        arith,
        thaw_all-frozen system q (newly_protected system r) r,
        any-keys q r.eng.frozen,
        any-filterb_keys (λ x. should_never_freeze system x r) q (keys r.eng.frozen),
      )

  -- When the policy does not load, the policy, the active preset, the frozen and the grace table
  -- and the system stay as they are.
  pub reload_policy_failed :
      (st : St Sys)
      → system.load_policy st.sys ≡ none
      → let st' = reload_policy system st in
        (st'.sys ≡ st.sys)
        × (st'.eng.policy ≡ st.eng.policy)
        × (st'.eng.active_preset ≡ st.eng.active_preset)
        × (st'.eng.frozen ≡ st.eng.frozen)
        × (st'.eng.grace ≡ st.eng.grace)
  unfolding reload_policy reload_loaded refresh_system_apps reload_rules emit_system
  reload_policy_failed st h = ground arith

  -- the two outcomes of `apply_preset`, by the entry that the table has
  abbrev pub PresetOutcome : Bool → Text → St Sys → St Sys → Type 0
  PresetOutcome found name st st' =
      (st'.eng.policy.whitelist ≡ st.eng.policy.whitelist)
      × (st'.eng.policy.force ≡ st.eng.policy.force)
      × (st'.eng.policy.apps ≡ st.eng.policy.apps)
      × (st'.eng.frozen ≡ st.eng.frozen)
      × (st'.eng.grace ≡ st.eng.grace)
      × (st'.sys ≡ st.sys)
      × (if found then st'.eng.active_preset ≡ some name else st' ≡ st)

  apply_known_outcome :
      (p : Option Preset) (name : Text) (st : St Sys)
      → PresetOutcome (is_some p) name st (apply_known system p name st).1
  unfolding apply_known emit_system overlay_preset
  apply_known_outcome none name st = (refl, refl, refl, refl, refl, refl, refl)
  apply_known_outcome (some p) name st = (refl, refl, refl, refl, refl, refl, refl)

  -- A preset leaves the whitelist, the force list, the per-app entries, the frozen and the grace
  -- table and the system alone; a known one becomes the active preset, an unknown one changes
  -- nothing at all.
  pub apply_preset_lem :
      (name : Text) (st : St Sys)
      → PresetOutcome
          (contains_key name st.eng.presets.presets)
          name
          st
          (apply_preset system name st).1
  unfolding apply_preset
  apply_preset_lem name st = apply_known_outcome (get name st.eng.presets.presets) name st

  -- what clearing after applying a preset does, by the policy that is loaded
  abbrev pub ClearOutcome : Option Policy → St Sys → St Sys → St Sys → Type 0
  ClearOutcome none st applied st' = st' ≡ applied
  ClearOutcome (some p) st applied st' =
      let e = st.eng in
      (st'.sys ≡ st.sys)
      × (st'.eng ≡ record e { policy = p; active_preset = none; events = st'.eng.events })

  note_clear_lem :
      (active : Option Text) (st : St Sys)
      → let st' = note_clear system active st in
        let e = st.eng in (st'.sys ≡ st.sys) × (st'.eng ≡ record e { events = st'.eng.events })
  unfolding emit_system
  note_clear_lem none st = (refl, refl)
  note_clear_lem (some name) st = (refl, refl)

  clear_known :
      (q : Option Preset) (o : Option Policy) (name : Text) (st : St Sys)
      → system.load_policy st.sys ≡ o
      → let applied = (apply_known system q name st).1 in
        ClearOutcome o st applied (clear_preset system applied)
  unfolding apply_known clear_preset emit_system overlay_preset
  clear_known none none name st h = rw (clear_preset, h) refl
  clear_known (some q) none name st h = rw (clear_preset, h) refl
  clear_known none (some p) name st h =
      rw (clear_preset, h)
        (note_clear_lem st.eng.active_preset
          (let e = st.eng in record st { eng = record e { policy = p; active_preset = none } }))
  clear_known (some q) (some p) name st h = rw (clear_preset, h) (refl, refl)

  -- Clearing after applying any preset: where the policy on disk loads, the engine is what it was
  -- before the preset was applied, but for the policy, which is the one on disk, the active
  -- preset, of which there is none, and the events, and the device is untouched; where it does
  -- not load, clearing changes nothing.
  pub clear_apply_preset :
      (name : Text) (st : St Sys)
      → let applied = (apply_preset system name st).1 in
        ClearOutcome (system.load_policy st.sys) st applied (clear_preset system applied)
  unfolding apply_preset
  clear_apply_preset name st =
      clear_known (get name st.eng.presets.presets) (system.load_policy st.sys) name st refl
