-- ===== src/Engine/Flags/Laws.antt =====
-- The two network tests of one decision: the second is asked right behind the first.
use sundown.Base.{
  true, false, ◌≡◌, refl, arith, Text, get-insert, nat_eq, text_eq, nat_beq_iff, Option, none, some,
  ℕ,
}
use sundown.Engine.Flags.{net_active, net_active_any, high_network, any_network, keep_hn}
use sundown.Engine.State.{St}
use sundown.Engine.System.{System}
use sundown.Network.{is_active, is_active_any}

module _ (system : System) where
  open system use {Sys}

  -- the second test right behind the first, by the uid and the counter
  masked :
      (p : Text) (uid bytes : Option ℕ) (st : St Sys)
      → system.pkg_uid p st.sys ≡ uid
      → ((u : ℕ) → uid ≡ some u → system.uid_bytes u st.sys ≡ bytes)
      → (net_active_any system p (net_active system p st).1).0 ≡ false
  unfolding net_active net_active_any is_active is_active_any
  masked p none bytes st h k = ground (arith, h)
  masked p (some uid) none st h k = ground (arith, h, k uid)
  masked p (some uid) (some bytes) st h k =
      let e = st.eng in
      ground
        (arith, h, k uid, get-insert uid uid (bytes, system.now st.sys) e.net, nat_beq_iff uid uid)

  -- For a package with keep_high_network on, the test for any traffic that follows the test for
  -- heavy traffic is false, whatever the traffic.
  pub any_network_masked :
      (p : Text) (st : St Sys)
      → keep_hn st.eng.policy p ≡ true
      → (any_network system p (high_network system p st).1).0 ≡ false
  unfolding high_network any_network
  any_network_masked p st h =
      let uid = system.pkg_uid p st.sys in
      ground (
        arith,
        masked p uid (elim uid [ none ↦ none | some u ↦ system.uid_bytes u st.sys ]) st refl
            (λ u e. rw e refl),
      )
