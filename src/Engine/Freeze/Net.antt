-- ===== src/Engine/Freeze/Net.antt =====
-- What the two network tests of `decide_leave` change.
use sundown.Base.{◌≡◌, ap, ◌∙◌, arith, Text, text_eq}
use sundown.Engine.Flags.{high_network, any_network, net_active, net_active_any}
use sundown.Engine.Freeze.Laws.{after_hn, after_net}
use sundown.Engine.State.{St}
use sundown.Engine.System.{System}

module _ (system : System) (p : Text) where
  open system use {Sys}

  -- The network tests change the baselines of the sampler alone.
  pub high_network_frame :
      (st : St Sys)
      → let e = st.eng in
        let n = (high_network system p st).1 in n ≡ record st { eng = record e { net = n.eng.net } }
  unfolding high_network net_active
  high_network_frame st = ground arith

  pub any_network_frame :
      (st : St Sys)
      → let e = st.eng in
        let n = (any_network system p st).1 in n ≡ record st { eng = record e { net = n.eng.net } }
  unfolding any_network net_active_any
  any_network_frame st = ground arith

  pub after_net_frame :
      (st : St Sys)
      → let e = st.eng in
        let n = after_net system p st in n ≡ record st { eng = record e { net = n.eng.net } }
  after_net_frame st =
      let n = after_hn system p st in
      any_network_frame n
      ∙ ap
          (λ m.
            let e = m.eng in record m { eng = record e { net = (after_net system p st).eng.net } })
          (high_network_frame st)
