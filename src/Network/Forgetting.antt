-- ===== src/Network/Forgetting.antt =====
-- What a node of floodsub/src/behaviour.rs forgets when its connection to a peer ends.
use rust_libp2p_pubsub.Prelude.{
  ℕ, ◌-◌, ◌≡◌, refl, ap, ◌∙◌, true, not, ◌&&◌, [], ◌==◌, arith, Bool-cases, inl, inr,
}
use rust_libp2p_pubsub.Prelude.Order.{ℕ-ord, same}
use rust_libp2p_pubsub.Prelude.Outcome.{returned}
use rust_libp2p_pubsub.Libp2p.{PeerId, ConnectionId}
use rust_libp2p_pubsub.Topic.{TopicHash, TopicHash-ord, from_raw}
use rust_libp2p_pubsub.Collections.BTreeSet
use rust_libp2p_pubsub.Connections.Manager
use rust_libp2p_pubsub.Connections.Manager.{ConnectionManager}
use rust_libp2p_pubsub.Connections.Manager.Invariant.{counted}
use rust_libp2p_pubsub.Connections.Manager.Counts.{Reach, lower}
use rust_libp2p_pubsub.Router
use rust_libp2p_pubsub.Router.{Router}
use rust_libp2p_pubsub.Router.Invariant.{IsCoherent}
use rust_libp2p_pubsub.Router.RemovePeer.{remove_peer_subscriptions_same}
use rust_libp2p_pubsub.Behaviour.{Behaviour}
use rust_libp2p_pubsub.Behaviour.Swarm.{on_connection_closed}
use rust_libp2p_pubsub.Behaviour.Connecting.{on_connection_closed_lem}
use rust_libp2p_pubsub.Network.Agreement.{on_routes}

-- The node's own subscriptions stay.
closed-own :
    (b b' : Behaviour) (p : PeerId) (c : ConnectionId) (k : ℕ) (t : TopicHash)
    → on_connection_closed b p c k ≡ returned b'
    → Router.is_subscribed b'.router t ≡ Router.is_subscribed b.router t
unfolding on_connection_closed Router.is_subscribed
closed-own b b' p c k t e =
    let m = Manager.on_connection_closed b.connections p c in
    let count = Manager.peer_connections_count m p in
    let kept = remove_peer_subscriptions_same p b.router in
    elim (Bool-cases (count == k)) [
      | inr x ↦ absurd (ground (arith, e, x))
      | inl x ↦ elim (Bool-cases (count == 0)) [
        | inl y ↦
            let there : b' ≡ record b { connections = m; router = Router.remove_peer b.router p } =
              ground (arith, e, x, y) in
            rw there (ap (BTreeSet.contains t) kept)
        | inr y ↦
            let there : b' ≡ record b { connections = m } = ground (arith, e, x, y) in rw there refl
      ]
    ]

-- What a node forgets of the only connection to a peer.
pub record Closed (b b' : Behaviour) (p : PeerId) (n : PeerId → ℕ) : Type 0 where
  pub still_coherent : IsCoherent b'.router
  pub still_counted : Reach b'.connections (lower p n)
  pub same_events : b'.swarm_out_events ≡ b.swarm_out_events
  pub same_own :
      (t : TopicHash) → Router.is_subscribed b'.router t ≡ Router.is_subscribed b.router t
  pub routes : (q : PeerId) (t : TopicHash) → on_routes b' q t ≡ (not (same q p) && on_routes b q t)

pub on_connection_closed-Closed :
    (b : Behaviour) (p : PeerId) (c : ConnectionId) (n : PeerId → ℕ)
    → Reach b.connections n
    → IsCoherent b.router
    → counted b.connections p c ≡ true
    → n p ≡ 1
    → (b' : Behaviour) × (on_connection_closed b p c (n p - 1) ≡ returned b') × Closed b b' p n
on_connection_closed-Closed b p c n r h there alone =
    let (b', done, linked, routes, coherent, events) =
      on_connection_closed_lem b p c n 0 (from_raw []) r h there in
    (
      b',
      done,
      record {
        still_coherent = coherent;
        still_counted = linked;
        same_events = events;
        same_own = λ t. closed-own b b' p c (n p - 1) t done;
        routes = λ q t.
            let (b'', done', linked', routes', coherent', events') =
              on_connection_closed_lem b p c n q t r h there in
            let same' : b' ≡ b'' = cc in rw same' (routes' ∙ ground (arith, alone));
      },
    )
