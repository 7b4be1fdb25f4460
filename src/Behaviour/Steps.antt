-- ===== src/Behaviour/Steps.antt =====
-- What may happen to one node of floodsub/src/behaviour.rs.
use rust_libp2p_pubsub.Prelude.{ℕ, Option, none, ◌≡◌, true, false}
use rust_libp2p_pubsub.Prelude.Order.{ℕ-ord, Bytes}
use rust_libp2p_pubsub.Prelude.{◌-◌}
use rust_libp2p_pubsub.Prelude.Outcome.{Outcome, returned, ◌>>=◌}
use rust_libp2p_pubsub.Libp2p.{PeerId, ConnectionId, Multiaddr, PeerIdBytes}
use rust_libp2p_pubsub.Config.{Config}
use rust_libp2p_pubsub.Topic.{Topic}
use rust_libp2p_pubsub.SeqNo
use rust_libp2p_pubsub.SeqNo.{MessageSeqNumberGenerator}
use rust_libp2p_pubsub.Connections.Manager.Invariant.{belongs, counted, lookup, is_up}
use rust_libp2p_pubsub.Connections.Manager.Counts.{bump, lower}
use rust_libp2p_pubsub.Proto.Fragmentation.{Sizes}
use rust_libp2p_pubsub.Handler.Types
use rust_libp2p_pubsub.Handler.Types.{frame_received}
use rust_libp2p_pubsub.Behaviour.{Behaviour, new, poll}
use rust_libp2p_pubsub.Behaviour.Outgoing.{subscribe, unsubscribe, publish}
use rust_libp2p_pubsub.Behaviour.Swarm.{
  on_swarm_event, connection_established, connection_closed, address_change, ignored,
  on_connection_handler_event, handle_established_inbound_connection,
  handle_established_outbound_connection,
}

module _ (s : Sizes) (ids : PeerIdBytes) where
  -- What may happen to a node, with the swarm's count of each peer's established connections before
  -- and after. The application calls, and its generator gives a publication a number; the swarm
  -- reports connections: an id once when it is registered and once when it is established, under
  -- its peer and with the count of the others, and the end of an established one; addresses
  -- change; handlers report that they are disabled, and any frames from any peer; and the swarm
  -- polls the node.
  pub data Step (b : Behaviour) (n : PeerId → ℕ) : Outcome Behaviour → (PeerId → ℕ) → Type 0 where
    subscribes : (topic : Topic) → Step b n (returned (subscribe s b topic).0) n
    unsubscribes : (topic : Topic) → Step b n (returned (unsubscribe s b topic).0) n
    publishes :
        (topic : Topic) (payload : Bytes) (drawn : ℕ) (generator : MessageSeqNumberGenerator)
        (seqno : Option ℕ)
        → SeqNo.next b.message_seqno_generator drawn ≡ returned (generator, seqno)
        → Step b n (publish s ids b topic payload drawn >>= λ r. returned r.0) n
    registers_inbound :
        (c : ConnectionId) (p : PeerId) (local_addr remote_addr : Multiaddr) (now : ℕ)
        → lookup b.connections c ≡ none
        → Step b n
            (returned
              (handle_established_inbound_connection {S = ℕ} b c p local_addr remote_addr now).0)
            n
    registers_outbound :
        (c : ConnectionId) (p : PeerId) (remote_addr : Multiaddr) (now : ℕ)
        → lookup b.connections c ≡ none
        → Step b n
            (returned (handle_established_outbound_connection {S = ℕ} b c p remote_addr now).0)
            n
    establishes :
        (p : PeerId) (c : ConnectionId)
        → belongs b.connections p c ≡ true
        → is_up (lookup b.connections c) ≡ false
        → Step b n (on_swarm_event s b (connection_established p c (n p))) (bump p n)
    closes :
        (p : PeerId) (c : ConnectionId)
        → counted b.connections p c ≡ true
        → Step b n (on_swarm_event s b (connection_closed p c (n p - 1))) (lower p n)
    moves :
        (c : ConnectionId) (a : Multiaddr) → Step b n (on_swarm_event s b (address_change c a)) n
    passes : Step b n (on_swarm_event s b ignored) n
    hears :
        (src : PeerId) (event : Types.Event)
        → Step b n (on_connection_handler_event s ids b src event) n
    polls : Step b n (returned (poll b).0) n

  -- A new node, after steps that returned.
  pub data Reach : Behaviour → (PeerId → ℕ) → Type 0 where
    start : (config : Config) (unix_nanos : ℕ) → Reach (new config unix_nanos) (λ p. 0)
    next :
        {b b' : Behaviour} {n n' : PeerId → ℕ} {o : Outcome Behaviour}
        → Reach b n
        → Step b n o n'
        → o ≡ returned b'
        → Reach b' n'
