-- ===== src/Engine/Freeze/Verdict.antt =====
-- What `decide_leave` decides on a package that leaves the foreground, and what each decision
-- does to the tables and the device.
use sundown.Base.{
  ℕ, Map, ◌≡◌, Bool, true, false, ◌||◌, Option, none, some, Text, insert, contains_key, text_eq,
  Instant, if◌then◌else◌,
}
use sundown.Engine.Flags.{push_mode, high_network, any_network}
use sundown.Engine.Freeze.{freeze_by_mode, known_dead, grace_of}
use sundown.Engine.Freeze.Laws.{shielded, after_hn}
use sundown.Engine.State.{St, Set}
use sundown.Engine.System.{System}
use sundown.Policy.{Policy, PushMode, is_forced}
use sundown.Rules
use sundown.Rules.{RuleAction, RuleHit, hit}

-- what is done with a package that leaves the foreground
pub data Verdict : Type 0 where
  spares freezes waits : Verdict

abbrev pub timed : Bool → Verdict
timed true = Verdict.freezes
timed false = Verdict.waits

abbrev pub acted : RuleAction → Bool → Verdict
acted RuleAction.exempt forced = Verdict.spares
acted RuleAction.freeze forced = Verdict.freezes
acted _ forced = timed forced

abbrev pub ruled : Option RuleHit → Bool → Verdict
ruled none forced = timed forced
ruled (some h) forced = acted h.action forced

module _ (system : System) (p : Text) where
  open system use {Sys}

  -- a freeze by the push mode, which a package without a process does not get
  abbrev pub tried : Bool → PushMode → Sys → Bool × Sys
  tried true mode s = (false, s)
  tried false mode s = freeze_by_mode system mode p s

  abbrev pub locked : Option ℕ → Sys → Sys
  locked none s = s
  locked (some uid) s = (system.protect_oom uid s).1

  -- The state behind a verdict, by the parts of the one before it: the package is spared, and
  -- they stay; it is frozen now, and is in the frozen table if the freezer succeeds; or it waits
  -- for its grace from now on, with its processes under the OOM lock.
  abbrev pub After :
      Verdict
      → Instant
      → Sys
      → Policy
      → Map Text Instant
      → Map Text (Instant × ℕ)
      → Set
      → St Sys
      → Type 0
  After Verdict.spares now s policy frozen grace adj_keep st' =
      (st'.sys ≡ s)
      × (st'.eng.frozen ≡ frozen)
      × (st'.eng.grace ≡ grace)
      × (st'.eng.adj_keep ≡ adj_keep)
  After Verdict.freezes now s policy frozen grace adj_keep st' =
      let r = tried (known_dead system (system.pkg_uid p s) s) (push_mode policy p) s in
      (st'.sys ≡ r.1)
      × (st'.eng.frozen ≡ (if r.0 then insert p now frozen else frozen))
      × (st'.eng.grace ≡ grace)
      × (st'.eng.adj_keep ≡ adj_keep)
  After Verdict.waits now s policy frozen grace adj_keep st' =
      (st'.sys ≡ locked (system.pkg_uid p s) s)
      × (st'.eng.frozen ≡ frozen)
      × (st'.eng.grace ≡ insert p (now, grace_of policy p) grace)
      × (st'.eng.adj_keep ≡ insert p tt adj_keep)

  abbrev pub LeaveOutcome : Verdict → Instant → St Sys → St Sys → Type 0
  LeaveOutcome v now st st' =
      After v now st.sys st.eng.policy st.eng.frozen st.eng.grace st.eng.adj_keep st'

  -- the rule that a package that leaves hits
  abbrev pub leave_rule : Instant → St Sys → Option RuleHit
  leave_rule now st = (hit st.eng.rules p Rules.leave none (system.today st.sys) now).0

  -- what is decided behind the tests of `shielded`
  abbrev pub verdict_open : Instant → St Sys → Verdict
  verdict_open now st =
      if (high_network system p st).0
        || (any_network system p (after_hn system p st)).0
        || contains_key p st.eng.cooldown
      then Verdict.spares
      else ruled (leave_rule now st) (is_forced st.eng.policy p)

  abbrev pub verdict : Instant → St Sys → Verdict
  verdict now st = if shielded system p st then Verdict.spares else verdict_open now st
