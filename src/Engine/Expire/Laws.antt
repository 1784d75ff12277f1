-- ===== src/Engine/Expire/Laws.antt =====
-- What the end of a grace does to the tables: the foreground is spared, and the package leaves
-- the grace table.
use sundown.Base.{
  Bool, true, false, not, ◌&&◌, ◌≡◌, arith, Text, contains_key, get-remove, get-empty, get-cons,
  text_eq, text_beq_iff, remove, any, Map, get, ℕ, Instant, List, [], ◌∷◌, ◌==◌, some, str,
}
use sundown.Engine.Change.{Change, Change-refl}
use sundown.Engine.Discard.{is_focus}
use sundown.Engine.Expire.{
  grace_expire, grace_expire_all, grace_network, grace_due, due, drop_grace, tick_spare,
}
use sundown.Engine.Flags.{high_network, any_network}
use sundown.Engine.Freeze.{freeze_now}
use sundown.Engine.Freeze.Adds.{freeze_now-Change, high_network-Change, any_network-Change}
use sundown.Engine.State.{St, emit}
use sundown.Engine.System.{System}

module _ (system : System) where
  open system use {Sys}

  drop_grace-Change :
      (p q : Text) (may : Bool) (st : St Sys)
      → Change may q st.eng (drop_grace system p st).eng
        × (contains_key p (drop_grace system p st).eng.grace ≡ false)
  drop_grace-Change p q may st =
      let e = st.eng in
      ground (arith, get-remove p q e.grace, get-remove p p e.grace, text_beq_iff p p)

  tick_spare-Change :
      (p reason q : Text) (may : Bool) (st : St Sys)
      → Change may q st.eng (tick_spare system p reason st).eng
        × (contains_key p (tick_spare system p reason st).eng.grace ≡ false)
  unfolding emit
  tick_spare-Change p reason q may st =
      let e = st.eng in
      ground (arith, get-remove p q e.grace, get-remove p p e.grace, text_beq_iff p p)

  grace_network-Change :
      (p : Text) (now : Instant) (q : Text) (st : St Sys)
      → Change (p == q) q st.eng (grace_network system p now st).eng
        × (contains_key p (grace_network system p now st).eng.grace ≡ false)
  unfolding grace_network
  grace_network-Change p now q st =
      let st1 = (high_network system p st).1 in
      let st2 = (any_network system p st1).1 in
      let fz = freeze_now system p now (str "grace_expired") st2 in
      ground (
        arith,
        high_network-Change system p q now st,
        any_network-Change system p q now st1,
        freeze_now-Change system p q now (str "grace_expired") st2,
        tick_spare-Change p (str "tick_high_network") q (p == q) st1,
        tick_spare-Change p (str "tick_network_exempt") q (p == q) st2,
        drop_grace-Change p q (p == q) fz,
      )

  -- Seen at any package `q`: only `p` can be frozen, and not if it is in the foreground.
  pub grace_expire-Change :
      (p : Text) (now : Instant) (q : Text) (st : St Sys)
      → Change
          (p == q && not (is_focus st.eng.last_focus q))
          q
          st.eng
          (grace_expire system p now st).eng
        × (contains_key p (grace_expire system p now st).eng.grace ≡ false)
  unfolding grace_expire
  grace_expire-Change p now q st =
      let may = p == q && not (is_focus st.eng.last_focus q) in
      ground (
        arith,
        text_beq_iff p q,
        grace_network-Change p now q st,
        drop_grace-Change p q may st,
        tick_spare-Change p (str "tick_critical") q may st,
        tick_spare-Change p (str "tick_exempt") q may st,
      )

  pub grace_expire_all-Change :
      (ps : List Text) (now : Instant) (q : Text) (st : St Sys)
      → Change (not (is_focus st.eng.last_focus q)) q st.eng (grace_expire_all system ps now st).eng
  unfolding grace_expire_all
  grace_expire_all-Change [] now q st = Change-refl _ q st.eng
  grace_expire_all-Change (p ∷ ps) now q st =
      let st1 = grace_expire system p now st in
      ground (arith, grace_expire-Change p now q st, grace_expire_all-Change ps now q st1)

  grace_network-grace :
      (p : Text) (now : Instant) (q : Text) (st : St Sys)
      → contains_key q (grace_network system p now st).eng.grace ≡ true
      → (contains_key q st.eng.grace && not (p == q)) ≡ true
  unfolding grace_network freeze_now emit
  grace_network-grace p now q st h =
      let st1 = (high_network system p st).1 in
      let st2 = (any_network system p st1).1 in
      let e = st.eng in
      let e1 = st1.eng in
      let e2 = st2.eng in
      ground (
        arith,
        high_network-Change system p q now st,
        any_network-Change system p q now st1,
        get-remove p q e.grace,
        get-remove p q e1.grace,
        get-remove p q e2.grace,
        get-remove p q (remove p e2.grace),
      )

  -- The end of one grace takes that package off the table, and adds none.
  grace_expire-grace :
      (p : Text) (now : Instant) (q : Text) (st : St Sys)
      → contains_key q (grace_expire system p now st).eng.grace ≡ true
      → (contains_key q st.eng.grace && not (p == q)) ≡ true
  unfolding grace_expire emit
  grace_expire-grace p now q st h =
      let e = st.eng in ground (arith, grace_network-grace p now q st, get-remove p q e.grace)

  pub grace_expire_all-grace :
      (ps : List Text) (now : Instant) (q : Text) (st : St Sys)
      → contains_key q (grace_expire_all system ps now st).eng.grace ≡ true
      → (contains_key q st.eng.grace && not (any (λ x. x == q) ps)) ≡ true
  unfolding grace_expire_all
  grace_expire_all-grace [] now q st h = ground arith
  grace_expire_all-grace (p ∷ ps) now q st h =
      let st1 = grace_expire system p now st in
      ground (arith, grace_expire_all-grace ps now q st1, grace_expire-grace p now q st)

-- A package whose time has run out is on the list that the tick works through.
pub grace_due-any :
    (now : Instant) (q : Text) (g : Instant × ℕ) (m : Map Text (Instant × ℕ))
    → get q m ≡ some g
    → due now g ≡ true
    → any (λ x. x == q) (grace_due now m) ≡ true
unfolding grace_due
grace_due-any now q g [] h k = ground (arith, get-empty {V = Instant × ℕ} q)
grace_due-any now q g ((p, x) ∷ m) h k =
    ground (arith, grace_due-any now q g m, get-cons p q x m, text_beq_iff p q)
