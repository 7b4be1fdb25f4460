-- ===== src/Network/Reachable.antt =====
-- What may happen in a network of nodes of floodsub/src/behaviour.rs.
use rust_libp2p_pubsub.Prelude.{ℕ, ◌≡◌, ◌≢◌, [], true, false, none, Option}
use rust_libp2p_pubsub.Prelude.Order.{Bytes}
use rust_libp2p_pubsub.Prelude.Outcome.{Outcome, returned}
use rust_libp2p_pubsub.Libp2p.{PeerId, ConnectionId, Multiaddr, PeerIdBytes}
use rust_libp2p_pubsub.Config.{Config}
use rust_libp2p_pubsub.Topic.{Topic, hash_of}
use rust_libp2p_pubsub.Connections.Manager.Invariant.{belongs, counted, lookup, is_up}
use rust_libp2p_pubsub.SeqNo
use rust_libp2p_pubsub.SeqNo.{MessageSeqNumberGenerator}
use rust_libp2p_pubsub.Proto.{RpcProto}
use rust_libp2p_pubsub.Proto.Fragmentation.{Sizes}
use rust_libp2p_pubsub.Frame.SubOpts
use rust_libp2p_pubsub.Handler.Types.{send_frame}
use rust_libp2p_pubsub.Prelude.{Bool, some, is_empty}
use rust_libp2p_pubsub.Behaviour.{ToSwarm, notify_handler, poll}
use rust_libp2p_pubsub.Behaviour.Swarm.{own_subscriptions}
use rust_libp2p_pubsub.Behaviour.Sending.{can_send}
use rust_libp2p_pubsub.Behaviour.Subscribing.{announcement}
use rust_libp2p_pubsub.Network.{
  Net, initial, subscribe_at, unsubscribe_at, publish_at, register_inbound_at, register_outbound_at,
  establish_at, disconnect_at, poll_at, receive_at,
}

-- Whether no frame is under way to the peer that a polled frame is for, if any. The handlers keep the
-- order of the frames only then.
abbrev pub may_hand_on : Net → PeerId → Option ToSwarm → Bool
may_hand_on net p (some (notify_handler q (send_frame frame))) = is_empty (net.wires p q)
may_hand_on net p _ = true

module _ (s : Sizes) (ids : PeerIdBytes) where
  -- Whether a node can send a frame.
  abbrev pub Sendable : Net → PeerId → RpcProto → Type 0
  Sendable net p frame = can_send s (net.nodes p).config.max_frame_size frame ≡ true

  -- What may happen in a network, and what comes of it. The applications subscribe, unsubscribe and
  -- publish, the swarms poll the nodes, hand them the frames that come in, in their order, and
  -- report connections: each id once, and one connection at most from a node to another. When one
  -- ends, the swarms of both nodes report it, once they have polled their nodes until no event was
  -- left. The frames that tell of subscriptions can be sent, and the generator of a node that
  -- publishes gives a number.
  pub data Step (net : Net) : Outcome Net → Type 0 where
    subscribes :
        (p : PeerId) (topic : Topic)
        → Sendable net p (announcement (SubOpts.subscribe (hash_of topic)))
        → Step net (returned (subscribe_at s net p topic))
    unsubscribes :
        (p : PeerId) (topic : Topic)
        → Sendable net p (announcement (SubOpts.unsubscribe (hash_of topic)))
        → Step net (returned (unsubscribe_at s net p topic))
    publishes :
        (p : PeerId) (topic : Topic) (payload : Bytes) (drawn : ℕ)
        (generator : MessageSeqNumberGenerator) (seqno : Option ℕ)
        → SeqNo.next (net.nodes p).message_seqno_generator drawn ≡ returned (generator, seqno)
        → Step net (publish_at s ids net p topic payload drawn)
    registers_inbound :
        (p : PeerId) (c : ConnectionId) (q : PeerId) (l r : Multiaddr) (now : ℕ)
        → lookup (net.nodes p).connections c ≡ none
        → Step net (returned (register_inbound_at net p c q l r now))
    registers_outbound :
        (p : PeerId) (c : ConnectionId) (q : PeerId) (r : Multiaddr) (now : ℕ)
        → lookup (net.nodes p).connections c ≡ none
        → Step net (returned (register_outbound_at net p c q r now))
    establishes :
        (p q : PeerId) (c : ConnectionId)
        → belongs (net.nodes p).connections q c ≡ true
        → is_up (lookup (net.nodes p).connections c) ≡ false
        → net.links p q ≡ 0
        → Sendable net p (own_subscriptions (net.nodes p))
        → Step net (establish_at s net p q c)
    polls :
        (p : PeerId)
        → may_hand_on net p (poll (net.nodes p)).1 ≡ true
        → Step net (returned (poll_at net p))
    receives : (p q : PeerId) → Step net (receive_at s ids net p q)
    disconnects :
        (p q : PeerId) (c d : ConnectionId)
        → p ≢ q
        → counted (net.nodes p).connections q c ≡ true
        → counted (net.nodes q).connections p d ≡ true
        → net.links p q ≡ 1
        → net.links q p ≡ 1
        → (net.nodes p).swarm_out_events ≡ []
        → (net.nodes q).swarm_out_events ≡ []
        → Step net (disconnect_at net p q c d)

  -- The networks that steps lead to which did not panic.
  pub data Reachable : Net → Type 0 where
    start :
        (config : PeerId → Config) (unix_nanos : PeerId → ℕ) → Reachable (initial config unix_nanos)
    next :
        {net net' : Net} {o : Outcome Net}
        → Reachable net
        → Step net o
        → o ≡ returned net'
        → Reachable net'
