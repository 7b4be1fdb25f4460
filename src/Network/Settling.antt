-- ===== src/Network/Settling.antt =====
-- What a node of floodsub/src/behaviour.rs holds of another's subscriptions when it has heard it out.
use rust_libp2p_pubsub.Prelude.{[], ℕ, ap₂, ◌≡◌, refl, ◌∙◌, ◌&&◌, length, is_empty, false, ltb}
use rust_libp2p_pubsub.Prelude.Outcome.{returned}
use rust_libp2p_pubsub.Libp2p.{PeerId, PeerIdBytes}
use rust_libp2p_pubsub.Topic.{TopicHash}
use rust_libp2p_pubsub.Router
use rust_libp2p_pubsub.Proto.Fragmentation.{Sizes}
use rust_libp2p_pubsub.Network.{Net}
use rust_libp2p_pubsub.Network.Reachable.{Reachable}
use rust_libp2p_pubsub.Network.Agreement.{on_routes}
use rust_libp2p_pubsub.Network.Convergence.{Reachable-routes}
use rust_libp2p_pubsub.Network.Exchange.{exchanges_at}
use rust_libp2p_pubsub.Network.Draining.{exchanges_at_lem}
use rust_libp2p_pubsub.Behaviour.Sending.{writes_to}

module _ (s : Sizes) (ids : PeerIdBytes) where
  -- In every network that can be reached while at most one frame at a time is under way from a
  -- node to another, a node with nothing on its wires, and with no frame for itself queued, is
  -- polled as often as it has events queued, and each frame is handled before the next poll. No
  -- step panics, the network can be reached again, and afterwards the node is on any node's routes
  -- of a topic that is not empty exactly if it counts a connection to that node and is subscribed
  -- to the topic.
  pub settles :
      (net : Net) (p q : PeerId) (t : TopicHash)
      → Reachable s ids net
      → is_empty t.hash ≡ false
      → writes_to p (net.nodes p).swarm_out_events ≡ false
      → ((r : PeerId) → net.wires p r ≡ [])
      → (net' : Net) × (exchanges_at s ids (length (net.nodes p).swarm_out_events) net p
          ≡ returned net')
        × Reachable s ids net'
        × (on_routes (net'.nodes q) p t
            ≡ (ltb 0 (net.links p q) && Router.is_subscribed (net.nodes p).router t))
  settles net p q t r e away clear =
      let (net', done, h) =
        exchanges_at_lem s ids (net.nodes p).swarm_out_events net p r refl away clear in
      (
        net',
        done,
        h.reachable,
        Reachable-routes s ids h.reachable p q t e (h.clear q) h.queue
            ∙ ap₂
                (λ (l : PeerId → PeerId → ℕ) (c : Router.Router).
                  ltb 0 (l p q) && Router.is_subscribed c t)
                h.same_links h.same_router,
      )
