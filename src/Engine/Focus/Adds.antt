-- ===== src/Engine/Focus/Adds.antt =====
-- What `on_focus` and `on_force_stop` do to the tables.
use sundown.Base.{
  ℕ, Bool, true, false, not, ◌&&◌, ◌||◌, ◌≡◌, refl, arith, Text, contains_key, get-remove, ◌==◌,
  text_eq, text_beq_iff, remove, length, ◌≤◌, Instant, Option, none, some,
}
use sundown.Engine.Change.{Change, IsSafe, IsSafe-Change}
use sundown.Engine.Discard.{is_focus}
use sundown.Engine.Freeze.Adds.{decide_leave-Change}
use sundown.Engine.Focus.{
  focus_thaw, focus_leave, thaw_result, residual_result, thawed, on_focus, on_force_stop, on_exempt,
  on_proc_add, on_proc_remove,
}
use sundown.Engine.State.{EngineState, St, profile_update}
use sundown.Engine.System.{System}
use sundown.Policy.{is_critical}
use sundown.Profile.{profile_focus, profile_leave}

-- The step of `on_focus p`, seen at `q`: `p` is in the foreground and in neither table; of the
-- others only the package that leaves may come in, and not as frozen if it is critical.
pub record Arrives (p q : Text) (e e' : EngineState) : Type 0 where
  pub focus : e'.last_focus ≡ some p
  pub short : length e.discarded ≤ 20 → length e'.discarded ≤ 20
  pub frozen :
      contains_key q e'.frozen ≡ true
      → (not (p == q)
          && (contains_key q e.frozen || (is_focus e.last_focus q && not (is_critical q))))
        ≡ true
  pub grace :
      contains_key q e'.grace ≡ true
      → (not (p == q) && (contains_key q e.grace || is_focus e.last_focus q)) ≡ true

module _ (system : System) (p q : Text) where
  open system use {Sys}

  -- The package that comes to the foreground is not in the frozen table any more.
  thaw_result-Change :
      (now : Instant) (r : Bool × Sys) (st : St Sys)
      → Change false q st.eng (thaw_result system p now r st).eng
        × ((thaw_result system p now r st).eng.frozen ≡ st.eng.frozen)
  unfolding thaw_result thawed
  thaw_result-Change now (true, s) st = (ground arith, refl)
  thaw_result-Change now (false, s) st = (ground arith, refl)

  residual_result-Change :
      (now : Instant) (r : Bool × Sys) (st : St Sys)
      → Change false q st.eng (residual_result system p now r st).eng
        × ((residual_result system p now r st).eng.frozen ≡ st.eng.frozen)
  unfolding residual_result thawed
  residual_result-Change now (true, s) st = (ground arith, refl)
  residual_result-Change now (false, s) st = (ground arith, refl)

  focus_thaw-Change :
      (now : Instant) (st : St Sys)
      → Change false q st.eng (focus_thaw system p now st).eng
        × (contains_key p (focus_thaw system p now st).eng.frozen ≡ false)
  unfolding focus_thaw
  focus_thaw-Change now st =
      let e = st.eng in
      let r = system.unfreeze_pkg_keep_oom p st.sys in
      let out = record st { eng = record e { frozen = remove p e.frozen } } in
      ground (
        arith,
        thaw_result-Change now r out,
        residual_result-Change now r st,
        get-remove p q e.frozen,
        get-remove p p e.frozen,
        text_beq_iff p p,
      )

  focus_leave-Change :
      (prev : Option Text) (now : Instant) (st : St Sys)
      → Change (is_focus prev q && not (p == q)) q st.eng (focus_leave system prev p now st).eng
  unfolding focus_leave profile_update
  focus_leave-Change none now st = ground arith
  focus_leave-Change (some prev) now st =
      let left = profile_update system (profile_leave now) prev st in
      ground (
        arith,
        decide_leave-Change system prev q now left,
        text_beq_iff prev p,
        text_beq_iff prev q,
        text_beq_iff p q,
      )

  pub on_focus-Arrives : (st : St Sys) → Arrives p q st.eng (on_focus system p st).eng
  unfolding on_focus profile_update
  on_focus-Arrives st =
      let now = system.now st.sys in
      let st1 = profile_update system (profile_focus now (system.epoch_secs st.sys)) p st in
      let st2 = focus_thaw system p now st1 in
      let e2 = st2.eng in
      let st3 = record st2 { eng = record e2 { grace = remove p e2.grace } } in
      ground (
        arith,
        focus_thaw-Change now st1,
        focus_leave-Change e2.last_focus now st3,
        get-remove p q e2.grace,
        text_beq_iff p q,
      )

-- After a focus event the package is the foreground, and neither frozen nor waiting to be frozen,
-- whether or not the freezer succeeded.
pub on_focus_lem :
    (system : System) (p : Text) (st : St system.Sys)
    → ((on_focus system p st).eng.last_focus ≡ some p)
      × (contains_key p (on_focus system p st).eng.frozen ≡ false)
      × (contains_key p (on_focus system p st).eng.grace ≡ false)
on_focus_lem system p st = ground (arith, on_focus-Arrives system p p st, text_beq_iff p p)

pub on_focus-IsSafe :
    (system : System) (p : Text) (st : St system.Sys)
    → IsSafe st.eng
    → IsSafe (on_focus system p st).eng
on_focus-IsSafe system p st h = record {
  focus_thawed = λ f e. ground (arith, on_focus-Arrives system p f st, text_beq_iff p f);
  focus_active = λ f e. ground (arith, on_focus-Arrives system p f st, text_beq_iff p f);
  critical_thawed = λ q e. ground (arith, on_focus-Arrives system p q st, h.critical_thawed q);
  short = (on_focus-Arrives system p p st).short h.short;
}

pub on_exempt-IsSafe :
    (system : System) (p : Text) (fg media loc : Bool) (st : St system.Sys)
    → IsSafe st.eng
    → IsSafe (on_exempt system p fg media loc st).eng
unfolding on_exempt
on_exempt-IsSafe system p fg media loc st =
    IsSafe-Change (λ q. false) (λ f e. refl) (λ q. ground arith)

pub on_force_stop-IsSafe :
    (system : System) (p : Text) (st : St system.Sys)
    → IsSafe st.eng
    → IsSafe (on_force_stop system p st).eng
unfolding on_force_stop
on_force_stop-IsSafe system p st =
    IsSafe-Change (λ q. false) (λ f e. refl)
      (λ q. ground (arith, get-remove p q st.eng.frozen, get-remove p q st.eng.grace))

pub on_proc_add-IsSafe :
    (pid : ℕ) (p : Text) (uid : Option ℕ) (e : EngineState)
    → IsSafe e
    → IsSafe (on_proc_add pid p uid e)
unfolding on_proc_add
on_proc_add-IsSafe pid p uid e = IsSafe-Change (λ q. false) (λ f x. refl) (λ q. ground arith)

pub on_proc_remove-IsSafe : (pid : ℕ) (e : EngineState) → IsSafe e → IsSafe (on_proc_remove pid e)
unfolding on_proc_remove
on_proc_remove-IsSafe pid e = IsSafe-Change (λ q. false) (λ f x. refl) (λ q. ground arith)
