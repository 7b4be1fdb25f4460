-- ===== src/Network/Triangle.antt =====
-- A run of three nodes of floodsub/src/behaviour.rs, each connected to the two others.
use rust_libp2p_pubsub.Prelude.{
  ℕ, ◌≡◌, ◌≢◌, refl, true, false, none, [], ◌∷◌, arith, length, ◌&&◌, ltb,
}
use rust_libp2p_pubsub.Prelude.Outcome.{returned}
use rust_libp2p_pubsub.Config
use rust_libp2p_pubsub.Collections.HashMap
use rust_libp2p_pubsub.Router
use rust_libp2p_pubsub.Proto.Fragmentation.{fragment_rpc_message}
use rust_libp2p_pubsub.Frame.Rpc.{into_rpc}
use rust_libp2p_pubsub.Behaviour.{Behaviour, new}
use rust_libp2p_pubsub.Network.{Net}
use rust_libp2p_pubsub.Prelude.{some, List, ◌++◌}
use rust_libp2p_pubsub.Prelude.Order.{ℕ-ord}
use rust_libp2p_pubsub.Collections.BTreeSet
use rust_libp2p_pubsub.Router.{propagation_routes}
use rust_libp2p_pubsub.Network.Hops.{PassesOn}
use rust_libp2p_pubsub.Network.Circulation.{round, round-same}
use rust_libp2p_pubsub.Prelude.{map, if◌then◌else◌, ◌==◌}
use rust_libp2p_pubsub.Router.{Router}
use rust_libp2p_pubsub.Libp2p.{PeerId}
use rust_libp2p_pubsub.Frame.Message.{Message}
use rust_libp2p_pubsub.Frame.Message.Fields.{published}
use rust_libp2p_pubsub.Frame.Rpc.{new_with_messages}
use rust_libp2p_pubsub.Behaviour.{message}
use rust_libp2p_pubsub.Behaviour.Incoming.{on_received_rpc_frame}
use rust_libp2p_pubsub.Behaviour.Sending.{told}
use rust_libp2p_pubsub.Fixtures.{sizes, one_byte, news}

-- Three nodes, each of which knows that the two others are subscribed to a topic, as it is.
abbrev knows : List PeerId → Router
knows peers = record {
  subscriptions = news ∷ [];
  peers_to_topics = map (λ (p : PeerId). (p, news ∷ [])) peers;
  topics_to_peers = (news, peers) ∷ [];
}

abbrev corner : List PeerId → Behaviour
corner peers = record (new Config.default 1) { router = knows peers }

abbrev others : PeerId → List PeerId
others p = if p == 1 then 2 ∷ 3 ∷ [] else if p == 2 then 1 ∷ 3 ∷ [] else 1 ∷ 2 ∷ []

abbrev letter : Message
letter = published one_byte news (b'h' ∷ []) (some 1) none

abbrev triangle : Net
triangle = record {
  nodes = λ p. corner (others p);
  wires = λ p q. if p == 1 && q == 2 then into_rpc (new_with_messages (letter ∷ [])) ∷ [] else [];
  links = λ p q. 1;
}

passes_2 : PassesOn sizes one_byte (triangle.nodes 2) 1 3 letter
unfolding Router.is_subscribed BTreeSet.contains rust_libp2p_pubsub.Topic.TopicHash-discrete
    rust_libp2p_pubsub.Frame.Message.set_sequence_number rust_libp2p_pubsub.Frame.Message.set_source
    rust_libp2p_pubsub.Frame.Message.new rust_libp2p_pubsub.Prelude.ℕ_discrete
    rust_libp2p_pubsub.Behaviour.Incoming.next_hops propagation_routes HashMap.get
    fragment_rpc_message into_rpc new
passes_2 = record { subscribed = refl; hops = refl; fits = refl; quiet = refl }

passes_3 : PassesOn sizes one_byte (triangle.nodes 3) 2 1 letter
unfolding Router.is_subscribed BTreeSet.contains rust_libp2p_pubsub.Topic.TopicHash-discrete
    rust_libp2p_pubsub.Frame.Message.set_sequence_number rust_libp2p_pubsub.Frame.Message.set_source
    rust_libp2p_pubsub.Frame.Message.new rust_libp2p_pubsub.Prelude.ℕ_discrete
    rust_libp2p_pubsub.Behaviour.Incoming.next_hops propagation_routes HashMap.get
    fragment_rpc_message into_rpc new
passes_3 = record { subscribed = refl; hops = refl; fits = refl; quiet = refl }

passes_1 : PassesOn sizes one_byte (triangle.nodes 1) 3 2 letter
unfolding Router.is_subscribed BTreeSet.contains rust_libp2p_pubsub.Topic.TopicHash-discrete
    rust_libp2p_pubsub.Frame.Message.set_sequence_number rust_libp2p_pubsub.Frame.Message.set_source
    rust_libp2p_pubsub.Frame.Message.new rust_libp2p_pubsub.Prelude.ℕ_discrete
    rust_libp2p_pubsub.Behaviour.Incoming.next_hops propagation_routes HashMap.get
    fragment_rpc_message into_rpc new
passes_1 = record { subscribed = refl; hops = refl; fits = refl; quiet = refl }

round-same_example :
    (round sizes one_byte triangle 1 2 3 ≡ returned triangle)
    × (b : Behaviour) × (on_received_rpc_frame sizes one_byte
          (triangle.nodes 2)
          1
          (into_rpc (new_with_messages (letter ∷ [])))
        ≡ returned b)
    × (told b.swarm_out_events ≡ message 1 news letter ∷ [])
round-same_example =
    round-same sizes one_byte triangle 1 2 3 news (b'h' ∷ []) (some 1) none (omega arith)
      (omega arith) (omega arith) refl tt passes_2 passes_3 passes_1 refl refl refl
