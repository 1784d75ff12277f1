-- ===== src/Engine/Flags.antt =====
-- The questions that the engine's decisions ask: effective switches of a package, VPN protection,
-- the packages that are never frozen, the unfreeze window, and the network tests.
pub mod Laws
use sundown.Base.{
  ℕ, Bool, true, false, ◌&&◌, ◌||◌, Option, none, some, Text, get, contains_key, text_eq, unwrap_or,
  if◌then◌else◌,
}
use sundown.Engine.State.{ExemptFlags, EngineState, St}
use sundown.Engine.System.{System}
use sundown.Network.{is_active, is_active_any, default_threshold, default_window}
use sundown.Policy.{
  AppMode, AppPolicy, PushMode, Policy, is_exempt_mode, is_critical, is_whitelisted, is_vpn_listed,
  in_window, is_important_mode,
}
use sundown.Rules
use sundown.Rules.{RuleAction, RuleHit, peek}

-- `match self.policy.apps.get(pkg)`: the override of a package, or the global value
abbrev pub effective {ℓ} : {A : Type ℓ} → (AppPolicy → Option A) → A → Text → Policy → A
effective field global pkg p = elim (get pkg p.apps) [
  | none ↦ global
  | some ap ↦ unwrap_or (field ap) global
]

-- EngineState::keep_flags
abbrev pub keep_fg : Policy → Text → Bool
keep_fg p pkg = effective (λ ap. ap.keep_fg_service) p.keep_fg_service pkg p

abbrev pub keep_media : Policy → Text → Bool
keep_media p pkg = effective (λ ap. ap.keep_media) p.keep_media pkg p

-- EngineState::keep_hn
abbrev pub keep_hn : Policy → Text → Bool
keep_hn p pkg = effective (λ ap. ap.keep_high_network) p.keep_high_network pkg p

-- EngineState::keep_net
abbrev pub keep_net : Policy → Text → Bool
keep_net p pkg = effective (λ ap. ap.keep_network) p.keep_network pkg p

-- EngineState::keep_loc
abbrev pub keep_loc : Policy → Text → Bool
keep_loc p pkg = effective (λ ap. ap.keep_location) p.keep_location pkg p

-- EngineState::push_mode
abbrev pub push_mode : Policy → Text → PushMode
push_mode p pkg = effective (λ ap. ap.push_mode) p.push_policy pkg p

-- EngineState::mode_of
abbrev pub mode_of : Policy → Text → AppMode
mode_of p pkg = elim (get pkg p.apps) [ none ↦ AppMode.standard | some ap ↦ ap.mode ]

-- EngineState::keep_wakeup
unfoldable pub keep_wakeup : Policy → Text → Bool
keep_wakeup p pkg = elim (get pkg p.apps) [
  | none ↦ true
  | some ap ↦ if is_important_mode ap.mode then true else unwrap_or ap.keep_wakeup true
]

-- `self.exempt.get(pkg)` and the test on its flags that `decide_leave`, `tick` and
-- `discard_ineligible` make
abbrev flags_hold : Policy → Text → Option ExemptFlags → Bool
flags_hold p pkg none = false
flags_hold p pkg (some fl) =
    (keep_fg p pkg && fl.fg_service)
    || (keep_media p pkg && fl.media)
    || (keep_loc p pkg && fl.location)

unfoldable pub exempt_action : EngineState → Text → Bool
exempt_action e pkg = flags_hold e.policy pkg (get pkg e.exempt)

abbrev is_exempt_hit : Option RuleHit → Bool
is_exempt_hit none = false
is_exempt_hit (some h) = elim h.action [ RuleAction.exempt ↦ true | _ ↦ false ]

module _ (system : System) where
  open system use {Sys, now, today, now_minutes, pkg_uid, is_vpn_owner, uid_bytes}

  abbrev owns_tun : Option ℕ → Sys → Bool
  owns_tun none s = false
  owns_tun (some uid) s = is_vpn_owner uid s

  -- EngineState::is_vpn_protected
  unfoldable pub is_vpn_protected : Text → St Sys → Bool
  is_vpn_protected pkg st =
      let p = st.eng.policy in
      if p.keep_vpn then is_vpn_listed p pkg || owns_tun (pkg_uid pkg st.sys) st.sys else false

  -- EngineState::should_never_freeze
  unfoldable pub should_never_freeze : Text → St Sys → Bool
  should_never_freeze pkg st =
      let rule_exempt =
        is_exempt_hit (peek st.eng.rules pkg Rules.always none (today st.sys) (now st.sys)) in
      is_critical pkg
      || contains_key pkg st.eng.system_apps
      || is_whitelisted st.eng.policy pkg
      || is_vpn_protected pkg st
      || is_exempt_mode (mode_of st.eng.policy pkg)
      || rule_exempt

  abbrev window_holds : Option (ℕ × ℕ) → Option ℕ → Bool
  window_holds none minute = false
  window_holds (some w) none = false
  window_holds (some w) (some minute) = in_window minute (some w)

  -- EngineState::in_unfreeze_window
  unfoldable pub in_unfreeze_window : Text → St Sys → Bool
  in_unfreeze_window pkg st =
      window_holds
        (elim (get pkg st.eng.policy.apps) [ none ↦ none | some ap ↦ ap.unfreeze_window ])
        (now_minutes st.sys)

  -- EngineState::net_active
  unfoldable pub net_active : Text → St Sys → Bool × St Sys
  net_active pkg st = elim (pkg_uid pkg st.sys) [
    | none ↦ (false, st)
    | some uid ↦
        let e = st.eng in
        let r =
          is_active e.net uid (uid_bytes uid st.sys) (now st.sys) default_window
            default_threshold in
        (r.0, record st { eng = record e { net = r.1 } })
  ]

  -- EngineState::net_active_any
  unfoldable pub net_active_any : Text → St Sys → Bool × St Sys
  net_active_any pkg st = elim (pkg_uid pkg st.sys) [
    | none ↦ (false, st)
    | some uid ↦
        let e = st.eng in
        let r = is_active_any e.net uid (uid_bytes uid st.sys) (now st.sys) default_window in
        (r.0, record st { eng = record e { net = r.1 } })
  ]

  -- `self.keep_hn(pkg) && self.net_active(pkg)`
  unfoldable pub high_network : Text → St Sys → Bool × St Sys
  unfolding net_active
  high_network pkg st = if keep_hn st.eng.policy pkg then net_active pkg st else (false, st)

  -- `self.keep_net(pkg) && self.net_active_any(pkg)`
  unfoldable pub any_network : Text → St Sys → Bool × St Sys
  unfolding net_active_any
  any_network pkg st = if keep_net st.eng.policy pkg then net_active_any pkg st else (false, st)
