-- ===== src/Engine/Run.antt =====
-- The events that daemon/src/sock.rs, config.rs and main.rs pass to the engine of
-- daemon/src/engine.rs, as a step relation, and the states that a run reaches from the start.
use sundown.Base.{ℕ, Bool, false, refl, Option, Text, text_eq, arith}
use sundown.Engine.Change.{IsSafe, IsSafe-Change}
use sundown.Engine.Focus.{on_focus, on_exempt, on_force_stop, on_proc_add, on_proc_remove}
use sundown.Engine.Focus.Adds.{
  on_focus-IsSafe, on_exempt-IsSafe, on_force_stop-IsSafe, on_proc_add-IsSafe,
  on_proc_remove-IsSafe,
}
use sundown.Engine.Reload.{reload_policy, apply_preset, clear_preset, refresh_system_apps}
use sundown.Engine.Reload.Laws.{reload_policy-Change, apply_preset-Change, clear_preset-Change}
use sundown.Engine.Startup.{startup}
use sundown.Engine.Startup.Laws.{HasNoCritical, startup-IsSafe}
use sundown.Events.{EventBuffer}
use sundown.Engine.State.{St}
use sundown.Engine.System.{System}
use sundown.Engine.Tick.{tick}
use sundown.Engine.Tick.Safe.{tick-IsSafe}
use sundown.Engine.Wakeup.{on_wakeup}
use sundown.Engine.Wakeup.Laws.{on_wakeup-IsSafe}

module _ (system : System) where
  open system use {Sys}

  -- `state.engine.lock().unwrap().events.push_system(..)` of the socket server
  abbrev noted : EventBuffer → St Sys → St Sys
  noted events st = let e = st.eng in record st { eng = record e { events = events } }

  -- One event. Between two events the world moves on: `waits` lets it, and the engine is not run.
  pub data Step : St Sys → St Sys → Type 0 where
    focus : (p : Text) (st : St Sys) → Step st (on_focus system p st)
    wakeup : (p source action : Text) (st : St Sys) → Step st (on_wakeup system p source action st)
    exempt :
        (p : Text) (fg media loc : Bool) (st : St Sys)
        → Step st (on_exempt system p fg media loc st)
    force_stop : (p : Text) (st : St Sys) → Step st (on_force_stop system p st)
    proc_add :
        (pid : ℕ) (p : Text) (uid : Option ℕ) (st : St Sys)
        → Step st (record st { eng = on_proc_add pid p uid st.eng })
    proc_remove : (pid : ℕ) (st : St Sys) → Step st (record st { eng = on_proc_remove pid st.eng })
    ticks : (st : St Sys) → Step st (tick system st)
    reload : (st : St Sys) → Step st (reload_policy system st)
    apply : (name : Text) (st : St Sys) → Step st (apply_preset system name st).1
    clear : (st : St Sys) → Step st (clear_preset system st)
    refresh : (st : St Sys) → Step st (refresh_system_apps system st)
    notes : (events : EventBuffer) (st : St Sys) → Step st (noted events st)
    waits : (s : Sys) (st : St Sys) → Step st (record st { sys = s })

  -- The states that a run reaches from the start of the daemon at `s`.
  pub data Reach (s : Sys) : St Sys → Type 0 where
    start : Reach s (startup system s)
    next : {st st' : St Sys} → Reach s st → Step st st' → Reach s st'

  pub Step-IsSafe : {st st' : St Sys} → Step st st' → IsSafe st.eng → IsSafe st'.eng
  unfolding refresh_system_apps
  Step-IsSafe (focus p st) = on_focus-IsSafe system p st
  Step-IsSafe (wakeup p source action st) = on_wakeup-IsSafe system p source action st
  Step-IsSafe (exempt p fg media loc st) = on_exempt-IsSafe system p fg media loc st
  Step-IsSafe (force_stop p st) = on_force_stop-IsSafe system p st
  Step-IsSafe (proc_add pid p uid st) = on_proc_add-IsSafe pid p uid st.eng
  Step-IsSafe (proc_remove pid st) = on_proc_remove-IsSafe pid st.eng
  Step-IsSafe (ticks st) = tick-IsSafe system st
  Step-IsSafe (reload st) =
      IsSafe-Change (λ q. false) (λ f e. refl) (λ q. reload_policy-Change system q st)
  Step-IsSafe (apply name st) =
      IsSafe-Change (λ q. false) (λ f e. refl) (λ q. apply_preset-Change system q name st)
  Step-IsSafe (clear st) =
      IsSafe-Change (λ q. false) (λ f e. refl) (λ q. clear_preset-Change system q st)
  Step-IsSafe (refresh st) = IsSafe-Change (λ q. false) (λ f e. refl) (λ q. ground arith)
  Step-IsSafe (notes events st) = IsSafe-Change (λ q. false) (λ f e. refl) (λ q. ground arith)
  Step-IsSafe (waits s st) = λ h. h

  -- In every state that a run of events, ticks and reloads reaches from a start whose stored
  -- frozen set has no critical package, the foreground package is neither frozen nor waiting to
  -- be frozen, no critical package is frozen, and the list of discarded packages has twenty
  -- entries at most.
  pub Reach-IsSafe :
      {s : Sys} {st : St Sys}
      → HasNoCritical (system.read_frozen_state s)
      → Reach s st
      → IsSafe st.eng
  Reach-IsSafe {s = s} h start = startup-IsSafe system s h
  Reach-IsSafe h (next r step) = Step-IsSafe step (Reach-IsSafe h r)
