-- ===== src/Engine/Discard/Laws.antt =====
-- A discard removes the package from every table, and nothing is discarded past the guard.
use sundown.Base.{
  ℕ, ◌⊎◌, inl, inr, Bool-cases, ◌+◌, str, List, [], ◌∷◌, Bool, true, false, not, ◌≡◌, refl, arith,
  Text, contains_key, get-remove, ◌==◌, nat_eq, text_eq, text_beq_iff, remove, any, any-append,
  length, length-append, length-filterb, length-drop, filterb, concat_elem, ltb, drop, ◌≤◌, Option,
  none, some,
}
use sundown.Engine.Change.{Change, Change-refl, Change-trans}
use sundown.Engine.Discard.{
  note_discarded, count_reason, discarded_ok, discard_result, discard_known, discard_pkg,
  discard_all, discard_ineligible, boot_reclaim_execute, forget,
}
use sundown.Engine.State.{EngineState, St}
use sundown.Engine.System.{System}

-- A list of discarded packages with twenty entries at most has twenty at most after another
-- discard.
pub length-note_discarded :
    (p : Text) (l : List Text) → length l ≤ 20 → length (note_discarded p l) ≤ 20
unfolding note_discarded
length-note_discarded p l h =
    let kept = filterb (λ x. not (x == p)) l in
    ground (
      arith,
      length-filterb (λ x. not (x == p)) l,
      length-append kept (p ∷ []),
      length-drop 1 (concat_elem kept p),
    )

any-drop_last :
    (q : Text → Bool) (p : Text) (l : List Text)
    → q p ≡ true
    → ltb 0 (length l) ≡ true
    → any q (drop 1 (concat_elem l p)) ≡ true
any-drop_last q p [] h k = ground arith
any-drop_last q p (x ∷ l) h k = ground (arith, any-append q l (p ∷ []))

-- The package that is discarded is in that list.
any-note_discarded : (p : Text) (l : List Text) → any (λ x. x == p) (note_discarded p l) ≡ true
unfolding note_discarded
any-note_discarded p l =
    let kept = filterb (λ x. not (x == p)) l in
    ground (
      arith,
      any-append (λ x. x == p) kept (p ∷ []),
      text_beq_iff p p,
      any-drop_last (λ x. x == p) p kept,
      length-append kept (p ∷ []),
    )

-- The counters of the reasons are all that `count_reason` moves.
count_reason-frozen :
    (r : Text) (e : EngineState)
    → ((count_reason r e).frozen ≡ e.frozen)
      × ((count_reason r e).grace ≡ e.grace)
      × ((count_reason r e).cooldown ≡ e.cooldown)
      × ((count_reason r e).adj_keep ≡ e.adj_keep)
      × ((count_reason r e).discarded ≡ e.discarded)
      × ((count_reason r e).last_focus ≡ e.last_focus)
      × ((count_reason r e).discard_ops ≡ e.discard_ops)
unfolding count_reason
count_reason-frozen r e = ground arith

module _ (system : System) where
  open system use {Sys}

  discarded_ok-Change :
      (p reason : Text) (uid killed : ℕ) (q : Text) (st : St Sys)
      → Change false q st.eng (discarded_ok system p reason uid killed st).eng
  unfolding discarded_ok count_reason
  discarded_ok-Change p reason uid killed q st =
      let e = st.eng in
      ground (
        arith,
        length-note_discarded p e.discarded,
        get-remove p q e.frozen,
        get-remove p q e.grace,
      )

  discard_result-Change :
      (p reason : Text) (uid : ℕ) (r : ℕ × Sys) (q : Text) (st : St Sys)
      → Change false q st.eng (discard_result system p reason uid r st).1.eng
  unfolding discard_result
  discard_result-Change p reason uid (killed, sys) q st =
      let e = st.eng in
      ground (
        arith,
        discarded_ok-Change p reason uid killed q (record st { sys = sys }),
        get-remove p q e.frozen,
      )

  discard_known-Change :
      (p reason : Text) (uid : Option ℕ) (q : Text) (st : St Sys)
      → Change false q st.eng (discard_known system p reason uid st).1.eng
  unfolding discard_known
  discard_known-Change p reason none q st =
      let e = st.eng in ground (arith, get-remove p q e.frozen)
  discard_known-Change p reason (some uid) q st =
      let e = st.eng in
      ground (
        arith,
        discard_result-Change p reason uid (system.discard_uid uid st.sys) q st,
        get-remove p q e.frozen,
      )

  pub discard_pkg-Change :
      (p reason q : Text) (st : St Sys)
      → Change false q st.eng (discard_pkg system p reason st).1.eng
  unfolding discard_pkg
  discard_pkg-Change p reason q st =
      ground (arith, discard_known-Change p reason (system.pkg_uid p st.sys) q st)

  pub discard_all-Change :
      (reason : Text) (ps : List Text) (q : Text) (st : St Sys)
      → Change false q st.eng (discard_all system reason ps st).eng
  unfolding discard_all
  discard_all-Change reason [] q st = Change-refl false q st.eng
  discard_all-Change reason (p ∷ ps) q st =
      Change-trans (discard_pkg-Change p reason q st)
        (discard_all-Change reason ps q (discard_pkg system p reason st).1)

  pub boot_reclaim_execute-Change :
      (q : Text) (st : St Sys) → Change false q st.eng (boot_reclaim_execute system st).eng
  unfolding boot_reclaim_execute
  boot_reclaim_execute-Change q st = discard_all-Change (str "boot_reclaim") _ q st

  -- The state after a discard that killed something: the package is in no table.
  pub record IsDiscarded (p : Text) (st st' : St Sys) : Type 0 where
    pub eligible : discard_ineligible system p st ≡ false
    pub thawed : contains_key p st'.eng.frozen ≡ false
    pub active : contains_key p st'.eng.grace ≡ false
    pub warm : contains_key p st'.eng.cooldown ≡ false
    pub unlocked : contains_key p st'.eng.adj_keep ≡ false
    pub counted : st'.eng.discard_ops ≡ st.eng.discard_ops + 1
    pub noted : any (λ x. x == p) st'.eng.discarded ≡ true

  -- The state after one that killed nothing: at most the package left the frozen table.
  pub record IsKept (p : Text) (st st' : St Sys) : Type 0 where
    pub grace : st'.eng.grace ≡ st.eng.grace
    pub cooldown : st'.eng.cooldown ≡ st.eng.cooldown
    pub adj_keep : st'.eng.adj_keep ≡ st.eng.adj_keep
    pub counted : st'.eng.discard_ops ≡ st.eng.discard_ops
    pub noted : st'.eng.discarded ≡ st.eng.discarded
    pub frozen : (st'.eng.frozen ≡ st.eng.frozen) ⊎ (st'.eng.frozen ≡ remove p st.eng.frozen)

  abbrev pub DiscardOutcome : Bool → Text → St Sys → St Sys → Type 0
  DiscardOutcome true p st st' = IsDiscarded p st st'
  DiscardOutcome false p st st' = IsKept p st st'

  discarded_ok_outcome :
      (p reason : Text) (uid killed : ℕ) (st : St Sys) (s : Sys)
      → discard_ineligible system p st ≡ false
      → IsDiscarded p st (discarded_ok system p reason uid killed (record st { sys = s }))
  unfolding discarded_ok count_reason
  discarded_ok_outcome p reason uid killed st s h =
      let e = st.eng in
      ground (
        arith,
        any-note_discarded p e.discarded,
        get-remove p p e.frozen,
        get-remove p p e.grace,
        get-remove p p e.cooldown,
        get-remove p p e.adj_keep,
        text_beq_iff p p,
      )

  unchanged : (p : Text) (st : St Sys) → IsKept p st st
  unchanged p st = record {
    grace = refl;
    cooldown = refl;
    adj_keep = refl;
    counted = refl;
    noted = refl;
    frozen = inl refl;
  }

  forgotten :
      (p : Text) (st : St Sys) (s : Sys) → IsKept p st (forget system p (record st { sys = s }))
  forgotten p st s = record {
    grace = refl;
    cooldown = refl;
    adj_keep = refl;
    counted = refl;
    noted = refl;
    frozen = inr refl;
  }

  discard_result_outcome :
      (p reason : Text) (uid : ℕ) (r : ℕ × Sys) (st : St Sys)
      → discard_ineligible system p st ≡ false
      → DiscardOutcome
          (discard_result system p reason uid r st).0
          p
          st
          (discard_result system p reason uid r st).1
  unfolding discard_result
  discard_result_outcome p reason uid (killed, sys) st h = elim (Bool-cases (killed == 0)) [
    | inl y ↦ rw y (forgotten p st sys)
    | inr n ↦ rw n (discarded_ok_outcome p reason uid killed st sys h)
  ]

  discard_known_outcome :
      (p reason : Text) (uid : Option ℕ) (st : St Sys)
      → discard_ineligible system p st ≡ false
      → DiscardOutcome
          (discard_known system p reason uid st).0
          p
          st
          (discard_known system p reason uid st).1
  unfolding discard_known
  discard_known_outcome p reason none st h = forgotten p st st.sys
  discard_known_outcome p reason (some uid) st h =
      elim (Bool-cases (system.uid_has_procs uid st.sys)) [
        | inl y ↦ rw y (discard_result_outcome p reason uid (system.discard_uid uid st.sys) st h)
        | inr n ↦ rw n (forgotten p st st.sys)
      ]

  -- A discard that reports success was of an eligible package, which is then in none of the
  -- frozen, grace, cooldown and OOM tables, is counted once and is on the list of discarded
  -- packages; one that reports failure changes no table except that the package may leave the
  -- frozen one.
  pub discard_pkg_outcome :
      (p reason : Text) (st : St Sys)
      → DiscardOutcome (discard_pkg system p reason st).0 p st (discard_pkg system p reason st).1
  unfolding discard_pkg
  discard_pkg_outcome p reason st = elim (Bool-cases (discard_ineligible system p st)) [
    | inl y ↦ rw y (unchanged p st)
    | inr n ↦ rw n (discard_known_outcome p reason (system.pkg_uid p st.sys) st n)
  ]
