-- ===== src/Engine/Freeze/Leaves.antt =====
-- `decide_leave` does what its verdict says.
use mathlib.Core.Path.{subst}
use sundown.Base.{
  ℕ, ◌≡◌, refl, sym, arith, Bool, true, false, Bool-cases, inl, inr, Option, none, some, Text, str,
  ◌+◌, insert, contains_key, text_eq, Instant, if◌then◌else◌,
}
use sundown.Engine.Flags.{push_mode, is_vpn_protected, high_network, any_network}
use sundown.Engine.Freeze.{
  freeze_now, after_freeze, freeze_by_mode, frozen_ok, known_dead, leave_action, leave_timed,
  leave_hit, leave_rules, leave_network, decide_leave, grace_of, lock_oom, spare,
}
use sundown.Engine.Freeze.Laws.{shielded, untouchable, after_hn, after_net, decide_leave-shielded}
use sundown.Engine.Freeze.Net.{high_network_frame, after_net_frame}
use sundown.Engine.Freeze.Verdict.{
  Verdict, timed, acted, ruled, locked, LeaveOutcome, leave_rule, verdict_open, verdict,
}
use sundown.Engine.State.{St, emit, profile_update}
use sundown.Engine.System.{System}
use sundown.Events.{EvLevel, EvAction}
use sundown.Network.{Baselines}
use sundown.Policy.{is_forced}
use sundown.Rules
use sundown.Rules.{RuleAction, RuleHit, hit}

module _ (system : System) (p : Text) where
  open system use {Sys}

  after_freeze_lem :
      (now : Instant) (reason : Text) (r : Bool × Sys) (st : St Sys)
      → let st' = after_freeze system p now reason r st in
        (st'.sys ≡ r.1)
        × (st'.eng.frozen ≡ (if r.0 then insert p now st.eng.frozen else st.eng.frozen))
        × (st'.eng.grace ≡ st.eng.grace)
        × (st'.eng.adj_keep ≡ st.eng.adj_keep)
  unfolding after_freeze frozen_ok emit profile_update
  after_freeze_lem now reason (true, s) st = (refl, refl, refl, refl)
  after_freeze_lem now reason (false, s) st = (refl, refl, refl, refl)

  freeze_now_lem :
      (now : Instant) (reason : Text) (st : St Sys)
      → untouchable system p st ≡ false
      → LeaveOutcome system p Verdict.freezes now st (freeze_now system p now reason st)
  unfolding freeze_now emit
  freeze_now_lem now reason st h =
      elim (Bool-cases (known_dead system (system.pkg_uid p st.sys) st.sys)) [
        | inl d ↦ rw d (ground (arith, h, d))
        | inr d ↦
            let r = freeze_by_mode system (push_mode st.eng.policy p) p st.sys in
            rw d (ground (arith, h, d, after_freeze_lem now reason r st))
      ]

  lock_oom_lem :
      (uid : Option ℕ) (st : St Sys)
      → let st' = lock_oom system uid st in
        (st'.sys ≡ locked system p uid st.sys) × (st'.eng ≡ st.eng)
  unfolding lock_oom
  lock_oom_lem none st = (refl, refl)
  lock_oom_lem (some uid) st = (refl, refl)

  leave_timed_lem :
      (now : Instant) (st : St Sys)
      → untouchable system p st ≡ false
      → LeaveOutcome system p
          (timed (is_forced st.eng.policy p))
          now
          st
          (leave_timed system p now st)
  unfolding leave_timed emit
  leave_timed_lem now st h = elim (Bool-cases (is_forced st.eng.policy p)) [
    | inl f ↦ rw f (freeze_now_lem now (str "force") st h)
    | inr f ↦
        let e = st.eng in
        let st1 = record st {
          eng = record e { grace = insert p (now, grace_of e.policy p) e.grace };
        } in
        rw f (ground (arith, f, lock_oom_lem (system.pkg_uid p st.sys) st1))
  ]

  leave_action_lem :
      (a : RuleAction) (id : Text) (now : Instant) (st : St Sys)
      → untouchable system p st ≡ false
      → LeaveOutcome system p
          (acted a (is_forced st.eng.policy p))
          now
          st
          (leave_action system a id p now st)
  unfolding leave_action emit is_vpn_protected
  leave_action_lem RuleAction.exempt id now st h = (refl, refl, refl, refl)
  leave_action_lem RuleAction.freeze id now st h =
      freeze_now_lem now (str "rule")
        (emit system EvLevel.event EvAction.delay p (some (str "rule_freeze")) (some id) st) h
  leave_action_lem RuleAction.suppress id now st h = leave_timed_lem now st h
  leave_action_lem RuleAction.discard id now st h = leave_timed_lem now st h

  leave_hit_lem :
      (o : Option RuleHit) (now : Instant) (st : St Sys)
      → untouchable system p st ≡ false
      → LeaveOutcome system p
          (ruled o (is_forced st.eng.policy p))
          now
          st
          (leave_hit system o p now st)
  unfolding leave_hit is_vpn_protected
  leave_hit_lem none now st h = leave_timed_lem now st h
  leave_hit_lem (some k) now st h =
      let e = st.eng in
      leave_action_lem k.action k.id now
        (record st { eng = record e { rule_hits = e.rule_hits + 1 } }) h

  leave_rules_lem :
      (now : Instant) (st : St Sys)
      → untouchable system p st ≡ false
      → LeaveOutcome system p
          (ruled (leave_rule system p now st) (is_forced st.eng.policy p))
          now
          st
          (leave_rules system p now st)
  unfolding leave_rules is_vpn_protected
  leave_rules_lem now st h =
      let e = st.eng in
      let r = hit e.rules p Rules.leave none (system.today st.sys) now in
      leave_hit_lem r.0 now (record st { eng = record e { rules = r.1 } }) h

  -- a state that is another one but for the baselines
  abbrev with_net : St Sys → Baselines → St Sys
  with_net st x = let e = st.eng in record st { eng = record e { net = x } }

  spare_lem :
      (reason : Text) (msg : Option Text) (now : Instant) (st n : St Sys)
      → n ≡ with_net st n.eng.net
      → LeaveOutcome system p Verdict.spares now st (spare system p reason msg n)
  unfolding emit
  spare_lem reason msg now st n h =
      subst (λ m. LeaveOutcome system p Verdict.spares now st (spare system p reason msg m)) (sym h)
        (refl, refl, refl, refl)

  leave_cooled_lem :
      (now : Instant) (st n : St Sys)
      → untouchable system p st ≡ false
      → n ≡ with_net st n.eng.net
      → LeaveOutcome system p
          (if contains_key p st.eng.cooldown
            then Verdict.spares
            else ruled (leave_rule system p now st) (is_forced st.eng.policy p))
          now
          st
          (if contains_key p n.eng.cooldown then n else leave_rules system p now n)
  unfolding is_vpn_protected
  leave_cooled_lem now st n h f =
      let x = n.eng.net in
      subst
        (λ m.
          LeaveOutcome system p
            (if contains_key p st.eng.cooldown
              then Verdict.spares
              else ruled (leave_rule system p now st) (is_forced st.eng.policy p))
            now st (if contains_key p m.eng.cooldown then m else leave_rules system p now m))
        (sym f)
        (elim (Bool-cases (contains_key p st.eng.cooldown)) [
          | inl c ↦ rw c (refl, refl, refl, refl)
          | inr c ↦ rw c (leave_rules_lem now (with_net st x) h)
        ])

  leave_network_lem :
      (now : Instant) (st : St Sys)
      → untouchable system p st ≡ false
      → LeaveOutcome system p (verdict_open system p now st) now st (leave_network system p now st)
  unfolding leave_network
  leave_network_lem now st h =
      let n = after_hn system p st in
      elim (Bool-cases (high_network system p st).0) [
        | inl b ↦
            rw b (spare_lem (str "high_network") none now st n (high_network_frame system p st))
        | inr b ↦ elim (Bool-cases (any_network system p n).0) [
          | inl a ↦
              rw (b, a)
                (spare_lem (str "network_exempt") none now st (after_net system p st)
                  (after_net_frame system p st))
          | inr a ↦
              rw (b, a)
                (leave_cooled_lem now st (after_net system p st) h (after_net_frame system p st))
        ]
      ]

  shielded-untouchable :
      (st : St Sys) → shielded system p st ≡ false → untouchable system p st ≡ false
  shielded-untouchable st h = ground arith

  decide_leave-unshielded :
      (now : Instant) (st : St Sys)
      → shielded system p st ≡ false
      → decide_leave system p now st ≡ leave_network system p now st
  unfolding decide_leave
  decide_leave-unshielded now st h = ground arith

  -- When a package leaves the foreground, one of three things happens, as the tests of the source
  -- decide in the state before. Spared by a shield, the network, the cooldown or an exempt rule,
  -- it leaves the device and the frozen, grace and OOM tables as they are. Frozen by a rule or by
  -- force, it leaves the device as the freezer of its push mode does, is in the frozen table from
  -- now if that succeeds, and both are as before if it has no process. Otherwise it waits: its
  -- grace starts now and its uid is put under the OOM lock, and the frozen table is as before.
  pub decide_leave_outcome :
      (now : Instant) (st : St Sys)
      → LeaveOutcome system p (verdict system p now st) now st (decide_leave system p now st)
  decide_leave_outcome now st = elim (Bool-cases (shielded system p st)) [
    | inl s ↦ rw s (decide_leave-shielded system p now st s)
    | inr o ↦
        rw (o, decide_leave-unshielded now st o)
          (leave_network_lem now st (shielded-untouchable st o))
  ]
