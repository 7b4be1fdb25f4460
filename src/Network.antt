-- ===== src/Network.antt =====
-- Many nodes of floodsub/src/behaviour.rs, joined by wires. A wire stands for the two connection handlers
-- and the transport between two nodes. It keeps the order of the frames, which the handlers do not where
-- several wait in one of them (`Handler.Simple.Order`): the steps of `Reachable` never put a frame on a
-- wire that is not empty.
pub mod Reachable
pub mod Words
pub mod Agreement
pub mod Honesty
pub mod Polls
pub mod Receptions
pub mod Forgetting
pub mod Disconnection
pub mod Convergence
pub mod Hearing
pub mod Exchange
pub mod Draining
pub mod Settling
pub mod Delivery
pub mod Reordering
pub mod Hops
pub mod Circulation
mod Examples
mod Triangle
mod Letter
use rust_libp2p_pubsub.Prelude.{ℕ, ◌-◌, ite, ℕ_discrete, Option, none, some, List, [], ◌∷◌, ◌++◌}
use rust_libp2p_pubsub.Prelude.Order.{Bytes}
use rust_libp2p_pubsub.Prelude.Outcome.{Outcome, returned, ◌>>=◌}
use rust_libp2p_pubsub.Libp2p.{PeerId, ConnectionId, Multiaddr, PeerIdBytes}
use rust_libp2p_pubsub.Config.{Config}
use rust_libp2p_pubsub.Topic.{Topic}
use rust_libp2p_pubsub.Connections.Manager.Counts.{bump, lower}
use rust_libp2p_pubsub.Proto.{RpcProto}
use rust_libp2p_pubsub.Proto.Fragmentation.{Sizes}
use rust_libp2p_pubsub.Handler.Types.{send_frame}
use rust_libp2p_pubsub.Behaviour
use rust_libp2p_pubsub.Behaviour.{Behaviour, ToSwarm, notify_handler, poll}
use rust_libp2p_pubsub.Behaviour.Incoming.{on_received_rpc_frame}
use rust_libp2p_pubsub.Behaviour.Outgoing.{subscribe, unsubscribe, publish}
use rust_libp2p_pubsub.Behaviour.Swarm.{
  on_connection_established, on_connection_closed, handle_established_inbound_connection,
  handle_established_outbound_connection,
}

-- `wires p q` holds what `p` has sent and `q` has not handled yet, and `links p q` the connections
-- to `q` that the swarm of `p` counts.
pub record Net : Type 0 where
  pub nodes : PeerId → Behaviour
  pub wires : PeerId → PeerId → List RpcProto
  pub links : PeerId → PeerId → ℕ

abbrev pub update {ℓ} : {A : Type ℓ} → PeerId → A → (PeerId → A) → PeerId → A
update p a f x = ite (ℕ_discrete x p) a (f x)

abbrev pub set_node : Net → PeerId → Behaviour → Net
set_node net p b = record net { nodes = update p b net.nodes }

abbrev pub set_wire : Net → PeerId → PeerId → List RpcProto → Net
set_wire net p q frames = record net { wires = update p (update q frames (net.wires p)) net.wires }

-- Nodes that have done nothing yet.
abbrev pub initial : (PeerId → Config) → (PeerId → ℕ) → Net
initial config unix_nanos = record {
  nodes = λ p. Behaviour.new (config p) (unix_nanos p);
  wires = λ p q. [];
  links = λ p q. 0;
}

-- What the swarm does with an event of a node: a frame goes on the wire.
abbrev carry : Net → PeerId → Option ToSwarm → Net
carry net p (some (notify_handler q (send_frame frame))) =
    set_wire net p q (net.wires p q ++ frame ∷ [])
carry net p _ = net

-- The swarm polls a node.
unfoldable pub poll_at : Net → PeerId → Net
unfolding poll
poll_at net p = carry (set_node net p (poll (net.nodes p)).0) p (poll (net.nodes p)).1

unfoldable pub register_inbound_at :
    Net → PeerId → ConnectionId → PeerId → Multiaddr → Multiaddr → ℕ → Net
unfolding handle_established_inbound_connection
register_inbound_at net p c q local_addr remote_addr now =
    set_node net p
      (handle_established_inbound_connection {S = ℕ} (net.nodes p) c q local_addr remote_addr now).0

unfoldable pub register_outbound_at : Net → PeerId → ConnectionId → PeerId → Multiaddr → ℕ → Net
unfolding handle_established_outbound_connection
register_outbound_at net p c q remote_addr now =
    set_node net p
      (handle_established_outbound_connection {S = ℕ} (net.nodes p) c q remote_addr now).0

-- The swarms of two nodes report that the connection between them is closed; what stands on its wires
-- is lost.
unfoldable pub disconnect_at : Net → PeerId → PeerId → ConnectionId → ConnectionId → Outcome Net
disconnect_at net p q c d = do
  a ← on_connection_closed (net.nodes p) q c (net.links p q - 1)
  b ← on_connection_closed (net.nodes q) p d (net.links q p - 1)
  returned (record (set_wire (set_wire (set_node (set_node net p a) q b) p q []) q p []) {
    links = update q (lower p (net.links q)) (update p (lower q (net.links p)) net.links);
  })

module _ (s : Sizes) where
  unfoldable pub subscribe_at : Net → PeerId → Topic → Net
  subscribe_at net p topic = set_node net p (subscribe s (net.nodes p) topic).0

  unfoldable pub unsubscribe_at : Net → PeerId → Topic → Net
  unsubscribe_at net p topic = set_node net p (unsubscribe s (net.nodes p) topic).0

  -- The swarm of `p` reports a connection to `q`.
  unfoldable pub establish_at : Net → PeerId → PeerId → ConnectionId → Outcome Net
  establish_at net p q c = do
    b ← on_connection_established s (net.nodes p) q c (net.links p q)
    returned (record (set_node net p b) { links = update p (bump q (net.links p)) net.links })

  module _ (ids : PeerIdBytes) where
    unfoldable pub publish_at : Net → PeerId → Topic → Bytes → ℕ → Outcome Net
    publish_at net p topic payload drawn = do
      (b, result) ← publish s ids (net.nodes p) topic payload drawn
      returned (set_node net p b)

    -- The first of the frames that stand on the wire from `p` is handled by `q`.
    abbrev handle_first : Net → PeerId → PeerId → List RpcProto → Outcome Net
    handle_first net p q [] = returned net
    handle_first net p q (frame ∷ frames) = do
      b ← on_received_rpc_frame s ids (net.nodes q) p frame
      returned (set_wire (set_node net q b) p q frames)

    unfoldable pub receive_at : Net → PeerId → PeerId → Outcome Net
    receive_at net p q = handle_first net p q (net.wires p q)
