-- ===== src/Engine/Expire.antt =====
-- The parts of `tick` that end a grace: the second check of a package whose time has run out.
pub mod Laws
use sundown.Base.{
  ℕ, ◌-◌, Bool, List, [], ◌∷◌, none, some, Text, str, Map, remove, contains_key, text_eq, leb,
  Instant, from_secs, if◌then◌else◌,
}
use sundown.Engine.Discard.{is_focus}
use sundown.Engine.Flags.{exempt_action, is_vpn_protected, high_network, any_network}
use sundown.Engine.Freeze.{freeze_now}
use sundown.Engine.State.{St, emit}
use sundown.Engine.System.{System}
use sundown.Events.{EvLevel, EvAction}
use sundown.Policy.{is_critical}

-- `now.duration_since(*start) >= Duration::from_secs(*dur)`
abbrev pub due : Instant → Instant × ℕ → Bool
due now (start, dur) = leb (from_secs dur) (now - start)

unfoldable pub grace_due : Instant → Map Text (Instant × ℕ) → List Text
grace_due now [] = []
grace_due now ((pkg, g) ∷ m) = let rest = grace_due now m in if due now g then pkg ∷ rest else rest

module _ (system : System) where
  open system use {Sys}

  -- a package whose grace has run out: the second check, then the freeze
  abbrev pub drop_grace : Text → St Sys → St Sys
  drop_grace pkg st = let e = st.eng in record st { eng = record e { grace = remove pkg e.grace } }

  abbrev pub tick_spare : Text → Text → St Sys → St Sys
  tick_spare pkg reason st =
      drop_grace pkg (emit system EvLevel.info EvAction.exempt pkg (some reason) none st)

  unfoldable pub grace_network : Text → Instant → St Sys → St Sys
  grace_network pkg now st =
      let (busy, st1) = high_network system pkg st in
      if busy
      then tick_spare pkg (str "tick_high_network") st1
      else let (active, st2) = any_network system pkg st1 in
        if active
        then tick_spare pkg (str "tick_network_exempt") st2
        else drop_grace pkg (freeze_now system pkg now (str "grace_expired") st2)

  unfoldable pub grace_expire : Text → Instant → St Sys → St Sys
  grace_expire pkg now st =
      let e = st.eng in
      if contains_key pkg e.frozen
      then drop_grace pkg st
      else if is_focus e.last_focus pkg
      then drop_grace pkg st
      else if is_critical pkg
      then tick_spare pkg (str "tick_critical") st
      else if is_vpn_protected system pkg st
      then drop_grace pkg st
      else if contains_key pkg e.cooldown
      then drop_grace pkg st
      else if exempt_action e pkg
      then tick_spare pkg (str "tick_exempt") st
      else grace_network pkg now st

  unfoldable pub grace_expire_all : List Text → Instant → St Sys → St Sys
  grace_expire_all [] now st = st
  grace_expire_all (p ∷ ps) now st = grace_expire_all ps now (grace_expire p now st)
