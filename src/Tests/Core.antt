-- ===== src/Tests/Core.antt =====
-- The theorems of the engine, applied to the toy system.
use sundown.Base.{
  ℕ, false, ◌≡◌, refl, none, some, [], str, contains_key, get, insert, nat_eq, text_eq, text_beq,
  sort_by, from_secs,
}
use sundown.Engine.Change.{IsSafe}
use sundown.Engine.Discard.{discard_pkg}
use sundown.Engine.Discard.Laws.{DiscardOutcome, discard_pkg_outcome}
use sundown.Engine.Flags.{
  keep_wakeup, high_network, any_network, net_active, net_active_any, exempt_action,
  is_vpn_protected, in_unfreeze_window,
}
use sundown.Engine.Flags.Laws.{any_network_masked}
use sundown.Engine.Focus.{on_focus}
use sundown.Engine.Focus.Adds.{on_focus_lem}
use sundown.Engine.Freeze.{freeze_now, decide_leave}
use sundown.Engine.Freeze.Leaves.{decide_leave_outcome}
use sundown.Engine.Freeze.Laws.{FreezeOutcome, freeze_now_guard, untouchable, decide_leave-shielded}
use sundown.Engine.Run.{Reach, Step, Reach-IsSafe}
use sundown.Engine.Startup.{startup}
use sundown.Engine.State.{St}
use sundown.Engine.Tick.{tick}
use sundown.Engine.Tick.Safe.{tick_overdue, tick_disabled_lem}
use sundown.Engine.Wakeup.{on_wakeup, gated, wake_held}
use sundown.Engine.Wakeup.Laws.{Untouched, held_back-Untouched, passed_thaws}
use sundown.Network.{is_active, is_active_any}
use sundown.Policy.{is_critical, is_whitelisted, is_vpn_listed, is_forced, in_window}
use sundown.Rules.{find_index, hit}
use sundown.Tests.{toy, chat, game, running, at, game_frozen, game_waits, throttled, observing}

-- The game comes to the foreground, then the chat, and a tick follows.
abbrev run_end : St ℕ
run_end = tick toy (on_focus toy chat (on_focus toy game (startup toy 5)))

abbrev run : Reach toy 5 run_end
run =
    Reach.next (Reach.next (Reach.next Reach.start (Step.focus game _)) (Step.focus chat _))
      (Step.ticks _)

Reach-IsSafe_example : IsSafe run_end.eng
unfolding is_critical text_beq
Reach-IsSafe_example = Reach-IsSafe toy (refl, tt) run

on_focus_lem_example :
    ((on_focus toy game (at game_frozen 9)).eng.last_focus ≡ some game)
    × (contains_key game (on_focus toy game (at game_frozen 9)).eng.frozen ≡ false)
    × (contains_key game (on_focus toy game (at game_frozen 9)).eng.grace ≡ false)
on_focus_lem_example = on_focus_lem toy game (at game_frozen 9)

tick_overdue_example : contains_key game (tick toy (at game_waits (from_secs 40))).eng.grace ≡ false
unfolding get text_beq
tick_overdue_example = tick_overdue toy game (7, 30) (at game_waits (from_secs 40)) refl refl refl

tick_disabled_lem_example :
    let e' = (tick toy (at observing 9)).eng in
    (e'.frozen ≡ [])
    × (e'.grace ≡ [])
    × (e'.cooldown ≡ [])
    × (e'.adj_keep ≡ [])
    × (e'.last_focus ≡ none)
    × (e'.discarded ≡ [])
    × (e'.tick_count ≡ 0)
tick_disabled_lem_example = tick_disabled_lem toy (at observing 9) refl

discard_pkg_outcome_example :
    DiscardOutcome toy
      (discard_pkg toy game (str "frozen_timeout") (at game_frozen 9)).0
      game
      (at game_frozen 9)
      (discard_pkg toy game (str "frozen_timeout") (at game_frozen 9)).1
discard_pkg_outcome_example = discard_pkg_outcome toy game (str "frozen_timeout") (at game_frozen 9)

held_back-Untouched_example :
    Untouched (at throttled 9) (on_wakeup toy game (str "broadcast") (str "boot") (at throttled 9))
unfolding keep_wakeup hit find_index gated wake_held get text_beq sort_by
held_back-Untouched_example =
    held_back-Untouched toy game (str "broadcast") (str "boot") (at throttled 9) refl

passed_thaws_example :
    (contains_key game
        (on_wakeup toy game (str "broadcast") (str "boot") (at game_frozen 9)).eng.frozen
      ≡ false)
    × (contains_key game
          (on_wakeup toy game (str "broadcast") (str "boot") (at game_frozen 9)).eng.grace
        ≡ false)
unfolding keep_wakeup hit find_index gated wake_held get text_beq sort_by
passed_thaws_example = passed_thaws toy game (str "broadcast") (str "boot") (at game_frozen 9) refl

freeze_now_guard_example :
    FreezeOutcome toy game
      (untouchable toy game (at running 9))
      9
      (at running 9)
      (freeze_now toy game 9 (str "force") (at running 9))
freeze_now_guard_example = freeze_now_guard toy game 9 (str "force") (at running 9)

decide_leave-shielded_example :
    let st' = decide_leave toy game 9 (at observing 9) in
    (st'.sys ≡ 9)
    × (st'.eng.frozen ≡ observing.frozen)
    × (st'.eng.grace ≡ [])
    × (st'.eng.adj_keep ≡ [])
decide_leave-shielded_example = decide_leave-shielded toy game 9 (at observing 9) refl

decide_leave_outcome_example :
    let st = at running 9 in
    let st' = decide_leave toy game 9 st in
    (st'.sys ≡ 10)
    × (st'.eng.frozen ≡ [])
    × (st'.eng.grace ≡ insert game (9, 30) running.grace)
    × (st'.eng.adj_keep ≡ insert game tt running.adj_keep)
unfolding is_critical is_whitelisted is_vpn_protected is_vpn_listed exempt_action in_unfreeze_window
    high_network any_network net_active net_active_any is_active is_active_any hit find_index
    sort_by is_forced get insert text_beq in_window
decide_leave_outcome_example = decide_leave_outcome toy game 9 (at running 9)

any_network_masked_example :
    (any_network toy game (high_network toy game (at running 9)).1).0 ≡ false
unfolding get
any_network_masked_example = any_network_masked toy game (at running 9) refl
