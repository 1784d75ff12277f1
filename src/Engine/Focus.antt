-- ===== src/Engine/Focus.antt =====
-- The handlers of the events focus, exempt, proc-add, proc-remove and force-stop.
pub mod Adds
pub mod Thaw
use sundown.Base.{
  ℕ, ◌+◌, Bool, true, false, Option, none, some, List, [], ◌∷◌, Text, str, Map, get, insert, remove,
  contains_key, ◌==◌, nat_eq, text_eq, any, unwrap_or, concat_elem, Instant, from_secs,
  if◌then◌else◌,
}
use sundown.Engine.Freeze.{decide_leave}
use sundown.Engine.State.{ExemptFlags, EngineState, St, emit, profile_update}
use sundown.Engine.System.{System}
use sundown.Events.{EvLevel, EvAction}
use sundown.Profile.{profile_focus, profile_leave, profile_unfreeze}

-- EngineState::cooldown_dur
abbrev pub cooldown_dur : EngineState → ℕ
cooldown_dur e = from_secs e.policy.cooldown_seconds

-- EngineState::on_proc_add
unfoldable pub add_pid : ℕ → List ℕ → List ℕ
add_pid pid l = if any (λ p. p == pid) l then l else concat_elem l pid

abbrev pub add_uid : Text → Option ℕ → Map Text ℕ → Map Text ℕ
add_uid pkg none m = m
add_uid pkg (some u) m = insert pkg u m

unfoldable pub on_proc_add : ℕ → Text → Option ℕ → EngineState → EngineState
unfolding add_pid
on_proc_add pid pkg uid e = record e {
  pkg_uids = add_uid pkg uid e.pkg_uids;
  pkg_pids = insert pkg (add_pid pid (unwrap_or (get pkg e.pkg_pids) [])) e.pkg_pids;
}

-- `list.remove(pos)` at the first position of the pid
unfoldable pub erase_pid : ℕ → List ℕ → List ℕ
erase_pid pid [] = []
erase_pid pid (p ∷ l) = if p == pid then l else p ∷ erase_pid pid l

-- EngineState::on_proc_remove: the first list that has the pid loses it
unfoldable pub remove_pid : ℕ → Map Text (List ℕ) → Map Text (List ℕ)
unfolding erase_pid
remove_pid pid [] = []
remove_pid pid ((k, l) ∷ m) =
    if any (λ p. p == pid) l then (k, erase_pid pid l) ∷ m else (k, l) ∷ remove_pid pid m

unfoldable pub on_proc_remove : ℕ → EngineState → EngineState
unfolding remove_pid
on_proc_remove pid e = record e { pkg_pids = remove_pid pid e.pkg_pids }

abbrev pub exempt_reason : ExemptFlags → Text
exempt_reason fl =
    if fl.fg_service
    then str "fg_service"
    else if fl.media
    then str "media"
    else if fl.location
    then str "location"
    else str "none"

module _ (system : System) where
  open system use {
    Sys, now, epoch_secs, pkg_uid, uid_has_frozen_procs, unfreeze_pkg, unfreeze_pkg_keep_oom,
  }

  -- an unfreeze that succeeded: the counter, the OOM lock kept, the profile, the event
  unfoldable pub thawed : EvLevel → Text → Text → St Sys → St Sys
  unfolding emit profile_update
  thawed level reason pkg st =
      let e = st.eng in
      let st1 = record st {
        eng = record e { unfreeze_ops = e.unfreeze_ops + 1; adj_keep = insert pkg tt e.adj_keep };
      } in
      emit system level EvAction.unfreeze pkg (some reason) none
        (profile_update system (profile_unfreeze (epoch_secs st1.sys)) pkg st1)

  abbrev pub cool_down : Text → Instant → St Sys → St Sys
  cool_down pkg now st =
      let e = st.eng in
      record st { eng = record e { cooldown = insert pkg (now + cooldown_dur e) e.cooldown } }

  -- the package was in the frozen table
  unfoldable pub thaw_result : Text → Instant → Bool × Sys → St Sys → St Sys
  thaw_result pkg now (true, sys) st =
      cool_down pkg now (thawed EvLevel.event (str "foreground") pkg (record st { sys = sys }))
  thaw_result pkg now (false, sys) st = cool_down pkg now (
      emit system EvLevel.warn EvAction.unfreeze pkg (some (str "foreground_failed")) none
        (record st { sys = sys }))

  -- the package was not in the table, and the kernel still has it frozen
  unfoldable pub residual_result : Text → Instant → Bool × Sys → St Sys → St Sys
  residual_result pkg now (true, sys) st =
      cool_down pkg now (thawed EvLevel.warn (str "residual_thaw") pkg (record st { sys = sys }))
  residual_result pkg now (false, sys) st = record st { sys = sys }

  abbrev pub is_frozen_uid : Option ℕ → Sys → Bool
  is_frozen_uid none s = false
  is_frozen_uid (some uid) s = uid_has_frozen_procs uid s

  unfoldable pub focus_thaw : Text → Instant → St Sys → St Sys
  focus_thaw pkg now st =
      let e = st.eng in
      if contains_key pkg e.frozen
      then thaw_result pkg now (unfreeze_pkg_keep_oom pkg st.sys)
          (record st { eng = record e { frozen = remove pkg e.frozen } })
      else if is_frozen_uid (pkg_uid pkg st.sys) st.sys
      then residual_result pkg now (unfreeze_pkg_keep_oom pkg st.sys) st
      else st

  -- the package that was in the foreground before
  unfoldable pub focus_leave : Option Text → Text → Instant → St Sys → St Sys
  focus_leave none pkg now st = st
  focus_leave (some prev) pkg now st =
      if prev == pkg
      then st
      else decide_leave system prev now (profile_update system (profile_leave now) prev st)

  -- EngineState::on_focus
  unfoldable pub on_focus : Text → St Sys → St Sys
  unfolding profile_update
  on_focus pkg st =
      let t = now st.sys in
      let st1 = profile_update system (profile_focus t (epoch_secs st.sys)) pkg st in
      let st2 = focus_thaw pkg t st1 in
      let e2 = st2.eng in
      let st3 = record st2 { eng = record e2 { grace = remove pkg e2.grace } } in
      let st4 = focus_leave e2.last_focus pkg t st3 in
      let e4 = st4.eng in record st4 { eng = record e4 { last_focus = some pkg } }

  -- EngineState::on_exempt
  unfoldable pub on_exempt : Text → Bool → Bool → Bool → St Sys → St Sys
  unfolding emit
  on_exempt pkg fg media loc st =
      let fl : ExemptFlags = record { fg_service = fg; media = media; location = loc } in
      let e = st.eng in
      emit system EvLevel.info EvAction.exempt pkg (some (exempt_reason fl)) none
        (record st { eng = record e { exempt = insert pkg fl e.exempt } })

  -- EngineState::on_force_stop
  unfoldable pub on_force_stop : Text → St Sys → St Sys
  unfolding emit
  on_force_stop pkg st =
      let e = st.eng in
      let cleared = record e {
        frozen = remove pkg e.frozen;
        grace = remove pkg e.grace;
        cooldown = remove pkg e.cooldown;
        adj_keep = remove pkg e.adj_keep;
        pkg_pids = remove pkg e.pkg_pids;
        pkg_uids = remove pkg e.pkg_uids;
      } in
      emit system EvLevel.event EvAction.close pkg (some (str "force_stop")) none
        (record { eng = cleared; sys = (unfreeze_pkg pkg st.sys).1 })
