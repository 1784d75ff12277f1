-- ===== src/Engine/Discard.antt =====
-- The discard of frozen packages of daemon/src/engine.rs: the guard, the act, the candidates of
-- the three triggers, and the reclaim after boot.
pub mod Laws
use sundown.Base.{
  ℕ, ◌+◌, ◌-◌, Bool, true, false, not, ◌&&◌, ◌||◌, Option, none, some, List, [], ◌∷◌, ◌++◌, map,
  Text, str, text_le, show_nat, Map, insert, remove, keys, ◌==◌, nat_eq, text_eq, filterb,
  concat_elem, drop, length, sort_by, unwrap_or, ltb, leb, Instant, from_secs, if◌then◌else◌,
}
use sundown.Engine.Flags.{mode_of, exempt_action, should_never_freeze}
use sundown.Engine.State.{EngineState, St, Set, emit, profile_update}
use sundown.Engine.System.{System}
use sundown.Events.{EvLevel, EvAction}
use sundown.Policy.{is_important_mode}
use sundown.Profile.{profile_discard}

-- `self.last_focus.as_deref() == Some(pkg)`
abbrev pub is_focus : Option Text → Text → Bool
is_focus none pkg = false
is_focus (some p) pkg = p == pkg

-- the last discarded packages: no repetition, twenty at most
unfoldable pub note_discarded : Text → List Text → List Text
note_discarded pkg l =
    let l' = concat_elem (filterb (λ p. not (p == pkg)) l) pkg in
    if ltb 20 (length l') then drop 1 l' else l'

-- the counters of the reasons
unfoldable pub count_reason : Text → EngineState → EngineState
count_reason reason e =
    if reason == str "frozen_timeout"
    then record e { discard_frozen_timeout = e.discard_frozen_timeout + 1 }
    else if reason == str "mem_watermark"
    then record e { discard_mem_watermark = e.discard_mem_watermark + 1 }
    else if reason == str "boot_reclaim"
    then record e { discard_boot_reclaim = e.discard_boot_reclaim + 1 }
    else e

-- EngineState::expired_discard_candidates, the timeout not zero
abbrev pub expired_in : Map Text Instant → ℕ → Instant → List Text
expired_in [] timeout now = []
expired_in ((p, since) ∷ m) timeout now =
    let rest = expired_in m timeout now in
    if leb (from_secs timeout) (now - since) then p ∷ rest else rest

unfoldable pub expired_discard_candidates : EngineState → Instant → List Text
expired_discard_candidates e now =
    let timeout = e.policy.discard_frozen_timeout_seconds in
    if timeout == 0 then [] else expired_in e.frozen timeout now

-- the order of `sort_discard_candidates`: the oldest freeze first, then the larger RSS
abbrev pub older : Text × Instant × ℕ → Text × Instant × ℕ → Bool
older (p, since, rss) (q, since', rss') = ltb since since' || (since == since' && ltb rss' rss)

module _ (system : System) where
  open system use {
    Sys, epoch_secs, pkg_uid, uid_has_procs, uid_rss_kb, pkg_is_cache_adj, discard_uid,
  }

  -- EngineState::sort_discard_candidates
  unfoldable pub weigh : Sys → Map Text Instant → List (Text × Instant × ℕ)
  weigh s [] = []
  weigh s ((pkg, since) ∷ m) =
      let uid = unwrap_or (pkg_uid pkg s) 0 in
      (pkg, since, (if uid == 0 then 0 else uid_rss_kb uid s)) ∷ weigh s m

  unfoldable pub sort_discard_candidates : St Sys → List Text
  unfolding weigh
  sort_discard_candidates st = map (λ x. x.0) (sort_by older (weigh st.sys st.eng.frozen))

  -- EngineState::discard_ineligible
  unfoldable pub discard_ineligible : Text → St Sys → Bool
  discard_ineligible pkg st =
      if should_never_freeze system pkg st
        || is_important_mode (mode_of st.eng.policy pkg)
        || is_focus st.eng.last_focus pkg
      then true
      else exempt_action st.eng pkg

  abbrev pub forget : Text → St Sys → St Sys
  forget pkg st = let e = st.eng in record st { eng = record e { frozen = remove pkg e.frozen } }

  -- the processes are killed: the tables, the counters, the profile, the event
  unfoldable pub discarded_ok : Text → Text → ℕ → ℕ → St Sys → St Sys
  unfolding count_reason emit profile_update
  discarded_ok pkg reason uid killed st =
      let e = st.eng in
      let st1 = record st {
        eng = record e {
          frozen = remove pkg e.frozen;
          grace = remove pkg e.grace;
          cooldown = remove pkg e.cooldown;
          adj_keep = remove pkg e.adj_keep;
          discard_ops = e.discard_ops + 1;
        };
      } in
      let st2 = profile_update system (profile_discard (epoch_secs st1.sys)) pkg st1 in
      let e3 = count_reason reason st2.eng in
      emit system EvLevel.warn EvAction.discard pkg (some reason)
        (some (str "uid=" ++ (show_nat uid ++ (str " killed=" ++ show_nat killed))))
        (record st2 { eng = record e3 { discarded = note_discarded pkg e3.discarded } })

  unfoldable pub discard_result : Text → Text → ℕ → ℕ × Sys → St Sys → Bool × St Sys
  discard_result pkg reason uid (killed, sys) st =
      if killed == 0
      then (false, forget pkg (record st { sys = sys }))
      else (true, discarded_ok pkg reason uid killed (record st { sys = sys }))

  unfoldable pub discard_known : Text → Text → Option ℕ → St Sys → Bool × St Sys
  discard_known pkg reason none st = (false, forget pkg st)
  discard_known pkg reason (some uid) st =
      if not (uid_has_procs uid st.sys)
      then (false, forget pkg st)
      else discard_result pkg reason uid (discard_uid uid st.sys) st

  -- EngineState::discard_pkg
  unfoldable pub discard_pkg : Text → Text → St Sys → Bool × St Sys
  discard_pkg pkg reason st =
      if discard_ineligible pkg st
      then (false, st)
      else discard_known pkg reason (pkg_uid pkg st.sys) st

  -- `for pkg in pkgs { self.discard_pkg(&pkg, reason); }`
  unfoldable pub discard_all : Text → List Text → St Sys → St Sys
  discard_all reason [] st = st
  discard_all reason (p ∷ ps) st = discard_all reason ps (discard_pkg p reason st).1

  -- the set of candidates of the reclaim after boot
  unfoldable pub collect : List Text → Set → Set
  collect [] acc = acc
  collect (p ∷ ps) acc = collect ps (insert p tt acc)

  -- EngineState::boot_reclaim_execute
  unfoldable pub boot_reclaim_execute : St Sys → St Sys
  unfolding collect
  boot_reclaim_execute st =
      let e = st.eng in
      let set = collect (keys e.frozen) (collect (map (λ x. x.0) e.boot_reclaim_candidates) []) in
      let reclaim =
        filterb (λ p. not (discard_ineligible p st) && pkg_is_cache_adj p st.sys) (keys set) in
      discard_all (str "boot_reclaim") (sort_by text_le reclaim) st
