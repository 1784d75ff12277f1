-- ===== src/Engine/Freeze/Laws.antt =====
-- The guards of `freeze_now`, and what `decide_leave` does with protected packages.
use sundown.Base.{
  ◌⊎◌, inl, inr, refl, insert, Bool-cases, Bool, true, false, not, ◌||◌, ◌≡◌, arith, Text,
  contains_key, text_eq, remove, Instant,
}
use sundown.Engine.Flags.{
  push_mode, mode_of, exempt_action, is_vpn_protected, in_unfreeze_window, high_network,
  any_network,
}
use sundown.Engine.Freeze.{freeze_now, after_freeze, freeze_by_mode, frozen_ok, decide_leave}
use sundown.Engine.State.{St, emit}
use sundown.Engine.System.{System}
use sundown.Policy.{is_exempt_mode, is_critical, is_whitelisted}

module _ (system : System) (p : Text) where
  open system use {Sys}

  -- the packages that no path may freeze
  abbrev pub untouchable : St Sys → Bool
  untouchable st =
      is_critical p || contains_key p st.eng.system_apps || is_vpn_protected system p st

  after_freeze_frozen :
      (now : Instant) (reason : Text) (r : Bool × Sys) (st : St Sys)
      → let st' = after_freeze system p now reason r st in
        ((st'.eng.frozen ≡ st.eng.frozen) ⊎ (st'.eng.frozen ≡ insert p now st.eng.frozen))
        × (st'.eng.grace ≡ st.eng.grace)
  unfolding after_freeze frozen_ok emit
  after_freeze_frozen now reason (true, s) st = (inr refl, refl)
  after_freeze_frozen now reason (false, s) st = (inl refl, refl)

  -- what `freeze_now` may do, by the guard
  abbrev pub FreezeOutcome : Bool → Instant → St Sys → St Sys → Type 0
  FreezeOutcome true now st st' =
      (st'.sys ≡ st.sys)
      × (st'.eng.frozen ≡ st.eng.frozen)
      × (st'.eng.grace ≡ remove p st.eng.grace)
  FreezeOutcome false now st st' =
      ((st'.eng.frozen ≡ st.eng.frozen) ⊎ (st'.eng.frozen ≡ insert p now st.eng.frozen))
      × (st'.eng.grace ≡ st.eng.grace)

  -- Whatever the reason, freeze_now on a package that is critical, of the system or a VPN calls
  -- no freezer and leaves the frozen table as it is; on any other it adds to the frozen table at
  -- most that package, with the instant of the call.
  pub freeze_now_guard :
      (now : Instant) (reason : Text) (st : St Sys)
      → FreezeOutcome (untouchable st) now st (freeze_now system p now reason st)
  unfolding freeze_now
  freeze_now_guard now reason st = elim (Bool-cases (untouchable st)) [
    | inl y ↦ rw y (ground (arith, y))
    | inr n ↦
        let r = freeze_by_mode system (push_mode st.eng.policy p) p st.sys in
        rw n (ground (arith, n, after_freeze_frozen now reason r st))
  ]

  -- the tests that `decide_leave` makes before it looks at the network
  abbrev pub shielded : St Sys → Bool
  shielded st =
      not st.eng.policy.enabled
      || is_critical p
      || contains_key p st.eng.system_apps
      || is_whitelisted st.eng.policy p
      || is_vpn_protected system p st
      || is_exempt_mode (mode_of st.eng.policy p)
      || exempt_action st.eng p
      || in_unfreeze_window system p st

  -- A package that leaves the foreground while the policy is off, or while it is critical, of the
  -- system, whitelisted, a VPN, exempt by its mode or by an exempt action, or in its unfreeze
  -- window, is neither frozen nor put on the grace table, and the freezer is not called.
  pub decide_leave-shielded :
      (now : Instant) (st : St Sys)
      → shielded st ≡ true
      → let st' = decide_leave system p now st in
        (st'.sys ≡ st.sys)
        × (st'.eng.frozen ≡ st.eng.frozen)
        × (st'.eng.grace ≡ st.eng.grace)
        × (st'.eng.adj_keep ≡ st.eng.adj_keep)
  unfolding decide_leave emit
  decide_leave-shielded now st h = ground arith

  -- the states behind the two network tests
  abbrev pub after_hn : St Sys → St Sys
  after_hn st = (high_network system p st).1

  abbrev pub after_net : St Sys → St Sys
  after_net st = (any_network system p (after_hn st)).1
