-- ===== src/Behaviour/Swarm.antt =====
-- The events of the swarm and of the handlers, in floodsub/src/behaviour.rs.
use rust_libp2p_pubsub.Prelude.{ℕ, ◌+◌, not, ◌==◌, [], ◌∷◌, map, if◌then◌else◌}
use rust_libp2p_pubsub.Prelude.Order.{Bytes, ℕ-ord}
use rust_libp2p_pubsub.Prelude.Outcome.{Outcome, returned, panicked}
use rust_libp2p_pubsub.Libp2p.{PeerId, ConnectionId, Multiaddr, PeerIdBytes}
use rust_libp2p_pubsub.Connections.Manager
use rust_libp2p_pubsub.Router
use rust_libp2p_pubsub.Router.{Router}
use rust_libp2p_pubsub.Proto.{RpcProto}
use rust_libp2p_pubsub.Proto.Fragmentation.{Sizes}
use rust_libp2p_pubsub.Frame.SubOpts
use rust_libp2p_pubsub.Frame.Rpc.{new_with_subscriptions, into_rpc}
use rust_libp2p_pubsub.Handler.Types.{frame_received}
use rust_libp2p_pubsub.Handler.Types
use rust_libp2p_pubsub.Handler
use rust_libp2p_pubsub.Handler.{Handler}
use rust_libp2p_pubsub.Behaviour.{Behaviour, send_rpc_frame}
use rust_libp2p_pubsub.Behaviour.Incoming.{on_received_rpc_frame}

-- What a new peer is sent: all subscriptions of the node.
abbrev pub own_subscriptions : Behaviour → RpcProto
own_subscriptions b =
    into_rpc (new_with_subscriptions (map SubOpts.subscribe b.router.subscriptions))

unfoldable pub on_connection_closed : Behaviour → PeerId → ConnectionId → ℕ → Outcome Behaviour
on_connection_closed b peer connection remaining_established =
    let b' : Behaviour = record b {
      connections = Manager.on_connection_closed b.connections peer connection;
    } in
    let count = Manager.peer_connections_count b'.connections peer in
    if not (count == remaining_established)
    then panicked
    else if count == 0
    then returned (record b' { router = Router.remove_peer b'.router peer })
    else returned b'

unfoldable pub on_connection_address_change : Behaviour → ConnectionId → Multiaddr → Behaviour
on_connection_address_change b connection new_address = record b {
  connections = Manager.on_address_change b.connections connection new_address;
}

-- The events of `FromSwarm` that are handled; the others are not.
pub data FromSwarm : Type 0 where
  connection_established connection_closed : PeerId → ConnectionId → ℕ → FromSwarm
  address_change : ConnectionId → Multiaddr → FromSwarm
  ignored : FromSwarm

module _ (s : Sizes) where
  unfoldable pub on_connection_established :
      Behaviour → PeerId → ConnectionId → ℕ → Outcome Behaviour
  on_connection_established b peer connection other_established =
      let b' : Behaviour = record b {
        connections = Manager.on_connection_established b.connections peer connection;
      } in
      let count = Manager.peer_connections_count b'.connections peer in
      if not (count == other_established + 1)
      then panicked
      else if count == 1
      then returned (send_rpc_frame s b' peer (own_subscriptions b')).0
      else returned b'

  unfoldable pub on_swarm_event : Behaviour → FromSwarm → Outcome Behaviour
  on_swarm_event b (connection_established peer c n) = on_connection_established b peer c n
  on_swarm_event b (connection_closed peer c n) = on_connection_closed b peer c n
  on_swarm_event b (address_change c a) = returned (on_connection_address_change b c a)
  on_swarm_event b ignored = returned b

  unfoldable pub on_connection_handler_event :
      PeerIdBytes → Behaviour → PeerId → Types.Event → Outcome Behaviour
  on_connection_handler_event p b src (frame_received frame) = on_received_rpc_frame s p b src frame
  on_connection_handler_event p b src (Types.disabled reason) = returned b

-- `/floodsub/1.0.0`
abbrev pub protocol_id : Bytes
protocol_id =
    b'/' ∷ b'f' ∷ b'l' ∷ b'o' ∷ b'o' ∷ b'd' ∷ b's' ∷ b'u' ∷ b'b' ∷ b'/' ∷ b'1' ∷ b'.' ∷ b'0' ∷ b'.'
    ∷ b'0' ∷ []

unfoldable pub handle_established_inbound_connection :
    {S : Type 0}
    → Behaviour
    → ConnectionId
    → PeerId
    → Multiaddr
    → Multiaddr
    → ℕ
    → Behaviour × Handler S
handle_established_inbound_connection b connection peer local_addr remote_addr now = (
  record b {
    connections = Manager.register_inbound b.connections connection peer local_addr remote_addr;
  },
  Handler.new protocol_id b.config.max_frame_size b.config.connection_idle_timeout now,
)

unfoldable pub handle_established_outbound_connection :
    {S : Type 0} → Behaviour → ConnectionId → PeerId → Multiaddr → ℕ → Behaviour × Handler S
handle_established_outbound_connection b connection peer remote_addr now = (
  record b { connections = Manager.register_outbound b.connections connection peer remote_addr },
  Handler.new protocol_id b.config.max_frame_size b.config.connection_idle_timeout now,
)
