-- ===== src/Network/Disconnection.antt =====
-- The end of a connection between two nodes of floodsub/src/behaviour.rs.
use rust_libp2p_pubsub.Prelude.{
  ℕ, ◌-◌, ◌≡◌, ◌≢◌, refl, sym, ap, ◌∙◌, Bool, true, false, ◌&&◌, ◌||◌, List, [], if◌then◌else◌,
  arith, Bool-cases, inl, inr,
}
use rust_libp2p_pubsub.Prelude.Order.{ℕ-ord, same}
use rust_libp2p_pubsub.Prelude.Outcome.{returned}
use rust_libp2p_pubsub.Libp2p.{PeerId, ConnectionId}
use rust_libp2p_pubsub.Topic.{TopicHash, TopicHash-ord}
use rust_libp2p_pubsub.Connections.Manager.Invariant.{counted}
use rust_libp2p_pubsub.Connections.Manager.Counts.{Reach, lower}
use rust_libp2p_pubsub.Router
use rust_libp2p_pubsub.Router.{Router}
use rust_libp2p_pubsub.Router.Invariant.{IsCoherent}
use rust_libp2p_pubsub.Proto.{RpcProto}
use rust_libp2p_pubsub.Behaviour.{Behaviour, ToSwarm}
use rust_libp2p_pubsub.Behaviour.Sending.{sent_to}
use rust_libp2p_pubsub.Network.{Net, update, disconnect_at}
use rust_libp2p_pubsub.Network.Agreement.{
  Agrees, queued, on_routes, update-at, update-off, update-same, by_node, rewired, rewired_lem,
}
use rust_libp2p_pubsub.Network.Forgetting.{Closed, on_connection_closed-Closed}

-- Whether two nodes are the ends of the connection.
abbrev ends : PeerId → PeerId → PeerId → PeerId → Bool
ends p q x y = same x p && same y q || same x q && same y p

module _ (net : Net) (p q : PeerId) (a b : Behaviour) (d : p ≢ q) where
  abbrev cut_nodes : PeerId → Behaviour
  cut_nodes = update q b (update p a net.nodes)

  abbrev cut_links : PeerId → PeerId → ℕ
  cut_links = update q (lower p (net.links q)) (update p (lower q (net.links p)) net.links)

  abbrev cut_wires : PeerId → PeerId → List RpcProto
  cut_wires = rewired q p [] (rewired p q [] net.wires)

  -- What neither of the two changes is as it was.
  same-cut {ℓ} :
      {B : Type ℓ} (g : Behaviour → B)
      → g a ≡ g (net.nodes p)
      → g b ≡ g (net.nodes q)
      → (x : PeerId) → g (cut_nodes x) ≡ g (net.nodes x)
  same-cut g ea eb x =
      update-same g q x b (update p a net.nodes)
        (eb ∙ ap g (sym (update-off p a net.nodes q (λ e. d (sym e)))))
      ∙ update-same g p x a net.nodes ea

  wires-cut : (x y : PeerId) → cut_wires x y ≡ (if ends p q x y then [] else net.wires x y)
  wires-cut x y =
      rewired_lem q p [] (rewired p q [] net.wires) x y
      ∙ ground (arith, rewired_lem p q [] net.wires x y)

  links-cut :
      (x y : PeerId) → cut_links x y ≡ (if ends p q x y then net.links x y - 1 else net.links x y)
  links-cut x y =
      by_node (λ z. cut_links z y ≡ (if ends p q z y then net.links z y - 1 else net.links z y)) q
        (rw (update-at q (lower p (net.links q)) (update p (lower q (net.links p)) net.links))
          (ground (arith, d)))
        (λ z off.
          rw
            (update-off q (lower p (net.links q)) (update p (lower q (net.links p)) net.links) z
              off)
            (by_node
              (λ w.
                w ≢ q
                → update p (lower q (net.links p)) net.links w y
                  ≡ (if ends p q w y then net.links w y - 1 else net.links w y))
              p (λ c. rw (update-at p (lower q (net.links p)) net.links) (ground (arith, c)))
              (λ w o c.
                rw (update-off p (lower q (net.links p)) net.links w o) (ground (arith, o, c)))
              z off))
        x

  module _ (h : Agrees net) (at_p : Closed (net.nodes p) a q (net.links p))
      (at_q : Closed (net.nodes q) b p (net.links q)) where
    routes-cut :
        (x y : PeerId) (t : TopicHash)
        → on_routes (cut_nodes y) x t
          ≡ (if ends p q x y then false else on_routes (net.nodes y) x t)
    routes-cut x y t =
        by_node
          (λ z.
            on_routes (cut_nodes z) x t
            ≡ (if ends p q x z then false else on_routes (net.nodes z) x t))
          q (rw (update-at q b (update p a net.nodes)) (at_q.routes x t ∙ ground (arith, d)))
          (λ z off. rw (update-off q b (update p a net.nodes) z off) (
            by_node
              (λ w.
                w ≢ q
                → on_routes (update p a net.nodes w) x t
                  ≡ (if ends p q x w then false else on_routes (net.nodes w) x t))
              p (λ c. rw (update-at p a net.nodes) (at_p.routes x t ∙ ground (arith, c)))
              (λ w o c. rw (update-off p a net.nodes w o) (ground (arith, o, c))) z off))
          y

    cut-Agrees :
        net.links p q ≡ 1
        → net.links q p ≡ 1
        → (net.nodes p).swarm_out_events ≡ []
        → (net.nodes q).swarm_out_events ≡ []
        → Agrees (record { nodes = cut_nodes; wires = cut_wires; links = cut_links })
    cut-Agrees l_pq l_qp e_p e_q = record {
      coherent =
          by_node (λ x. IsCoherent (cut_nodes x).router) q
            (rw (update-at q b (update p a net.nodes)) at_q.still_coherent)
            (λ x o. rw (update-off q b (update p a net.nodes) x o) (
              by_node (λ x. IsCoherent (update p a net.nodes x).router) p
                (rw (update-at p a net.nodes) at_p.still_coherent)
                (λ x o. rw (update-off p a net.nodes x o) (h.coherent x)) x));
      counted =
          by_node (λ x. Reach (cut_nodes x).connections (cut_links x)) q
            (rw
              (
                update-at q b (update p a net.nodes),
                update-at q (lower p (net.links q)) (update p (lower q (net.links p)) net.links),
              )
              at_q.still_counted)
            (λ x o.
              rw
                (
                  update-off q b (update p a net.nodes) x o,
                  update-off q (lower p (net.links q)) (update p (lower q (net.links p)) net.links)
                      x o,
                )
                (by_node
                  (λ x.
                    Reach (update p a net.nodes x).connections
                      (update p (lower q (net.links p)) net.links x))
                  p
                  (rw (update-at p a net.nodes, update-at p (lower q (net.links p)) net.links)
                    at_p.still_counted)
                  (λ x o.
                    rw
                      (
                        update-off p a net.nodes x o,
                        update-off p (lower q (net.links p)) net.links x o,
                      )
                      (h.counted x))
                  x));
      says = λ x y t e.
          let silent : queued y (cut_nodes x) ≡ queued y (net.nodes x) =
            same-cut (queued y)
              (ap (λ (l : List ToSwarm). (sent_to y l).subscriptions) at_p.same_events)
              (ap (λ (l : List ToSwarm). (sent_to y l).subscriptions) at_q.same_events) x in
          let own : Router.is_subscribed (cut_nodes x).router t
              ≡ Router.is_subscribed (net.nodes x).router t =
            same-cut (λ (c : Behaviour). Router.is_subscribed c.router t) (at_p.same_own t)
              (at_q.same_own t) x in
          rw (silent, own, wires-cut x y, links-cut x y, routes-cut x y t)
            (elim (Bool-cases (ends p q x y)) [
              | inl c ↦
                  let quiet : (net.nodes x).swarm_out_events ≡ [] = ground (arith, c, e_p, e_q) in
                  let one : net.links x y ≡ 1 = ground (arith, c, l_pq, l_qp) in
                  rw (c, quiet, one) (unfold sent_to in refl)
              | inr c ↦ rw c (h.says x y t e)
            ]);
    }

-- Both nodes forget the connection, and what each knew of the other.
pub disconnect-Agrees :
    (net : Net) (p q : PeerId) (c d : ConnectionId)
    → Agrees net
    → p ≢ q
    → counted (net.nodes p).connections q c ≡ true
    → counted (net.nodes q).connections p d ≡ true
    → net.links p q ≡ 1
    → net.links q p ≡ 1
    → (net.nodes p).swarm_out_events ≡ []
    → (net.nodes q).swarm_out_events ≡ []
    → (net' : Net) × (disconnect_at net p q c d ≡ returned net') × Agrees net'
unfolding disconnect_at
disconnect-Agrees net p q c d h off up_p up_q l_pq l_qp e_p e_q =
    let (a, done_p, at_p) =
      on_connection_closed-Closed (net.nodes p) q c (net.links p) (h.counted p) (h.coherent p) up_p
        l_pq in
    let (b, done_q, at_q) =
      on_connection_closed-Closed (net.nodes q) p d (net.links q) (h.counted q) (h.coherent q) up_q
        l_qp in
    (
      record {
        nodes = cut_nodes net p q a b off;
        wires = cut_wires net p q a b off;
        links = cut_links net p q a b off;
      },
      rw (done_p, done_q) refl,
      cut-Agrees net p q a b off h at_p at_q l_pq l_qp e_p e_q,
    )
