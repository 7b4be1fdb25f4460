-- ===== src/Network/Examples.antt =====
-- A run of two nodes of floodsub/src/behaviour.rs: the first meets the second and subscribes.
use rust_libp2p_pubsub.Prelude.{
  ℕ, ◌≡◌, ◌≢◌, refl, true, false, none, [], ◌∷◌, arith, length, ◌&&◌, ltb,
}
use rust_libp2p_pubsub.Prelude.Outcome.{Outcome, returned, panicked}
use rust_libp2p_pubsub.Config
use rust_libp2p_pubsub.Collections.HashMap
use rust_libp2p_pubsub.Collections.Vec.{contains}
use rust_libp2p_pubsub.Collections.VecMap.{add_once}
use rust_libp2p_pubsub.Connections.Manager
use rust_libp2p_pubsub.Connections.Manager.Counts
use rust_libp2p_pubsub.Connections.Manager.Invariant.{belongs, lookup, is_up}
use rust_libp2p_pubsub.Proto.Fragmentation.{fragment_rpc_message}
use rust_libp2p_pubsub.Frame.SubOpts
use rust_libp2p_pubsub.Frame.Rpc.{into_rpc}
use rust_libp2p_pubsub.Behaviour.{Behaviour, new}
use rust_libp2p_pubsub.Behaviour.Swarm.{own_subscriptions, handle_established_inbound_connection}
use rust_libp2p_pubsub.Behaviour.Sending.{can_send}
use rust_libp2p_pubsub.Behaviour.Subscribing.{announcement}
use rust_libp2p_pubsub.Behaviour.Connecting.{connects}
use rust_libp2p_pubsub.Network.{Net, initial, register_inbound_at, establish_at, subscribe_at}
use rust_libp2p_pubsub.Network.Reachable.{
  Reachable, start, next, registers_inbound, establishes, subscribes,
}
use rust_libp2p_pubsub.Network.Agreement.{Agrees, word, truth, replaced}
use rust_libp2p_pubsub.Network.Convergence.{Reachable-Agrees, Reachable-word}
use rust_libp2p_pubsub.Network.Reordering.{handle_all, stale_route}
use rust_libp2p_pubsub.Prelude.{some, List, ◌++◌}
use rust_libp2p_pubsub.Prelude.Order.{ℕ-ord}
use rust_libp2p_pubsub.Collections.BTreeSet
use rust_libp2p_pubsub.Router.{propagation_routes}
use rust_libp2p_pubsub.Router.Invariant.{empty-IsCoherent}
use rust_libp2p_pubsub.Proto.{RpcProto}
use rust_libp2p_pubsub.Handler.Types.{waiting_output}
use rust_libp2p_pubsub.Handler.Simple
use rust_libp2p_pubsub.Handler.Simple.{SimpleHandler}
use rust_libp2p_pubsub.Handler.Simple.Loop.{broken}
use rust_libp2p_pubsub.Prelude.{map, if◌then◌else◌, ◌==◌}
use rust_libp2p_pubsub.Behaviour.{message}
use rust_libp2p_pubsub.Fixtures.{sink, sink_takes_all, sizes, one_byte, news, news_topic}

abbrev silent : Net
silent = initial (λ p. Config.default) (λ p. 1)

abbrev registered : Net
registered = register_inbound_at silent 1 10 2 100 101 0

registered-Reachable : Reachable sizes one_byte registered
unfolding new HashMap.get
registered-Reachable =
    next (start (λ p. Config.default) (λ p. 1)) (registers_inbound 1 10 2 100 101 0 refl) refl

abbrev pub value_or : Net → Outcome Net → Net
value_or net (returned net') = net'
value_or net panicked = net

value_or_lem :
    (net net' : Net) (o : Outcome Net) → o ≡ returned net' → o ≡ returned (value_or net o)
value_or_lem net net' o e = rw e refl

mine : belongs (registered.nodes 1).connections 2 10 ≡ true
unfolding contains HashMap.get register_inbound_at rust_libp2p_pubsub.Prelude.ℕ_discrete
    Manager.register_inbound add_once HashMap.insert new
mine = refl

down : is_up (lookup (registered.nodes 1).connections 10) ≡ false
unfolding HashMap.get register_inbound_at rust_libp2p_pubsub.Prelude.ℕ_discrete
    Manager.register_inbound HashMap.insert new
down = refl

unlinked : registered.links 1 2 ≡ 0
unfolding register_inbound_at
unlinked = refl

counted : Counts.Reach (registered.nodes 1).connections (registered.links 1)
counted = Agrees.counted (Reachable-Agrees sizes one_byte registered-Reachable) 1

introducible :
    can_send sizes
      (registered.nodes 1).config.max_frame_size
      (own_subscriptions (registered.nodes 1))
    ≡ true
unfolding fragment_rpc_message into_rpc register_inbound_at rust_libp2p_pubsub.Prelude.ℕ_discrete
    new
introducible = refl

-- The first node counts a connection to the second.
abbrev met : Net
met = value_or registered (establish_at sizes registered 1 2 10)

established : establish_at sizes registered 1 2 10 ≡ returned met
unfolding establish_at
established =
    let (b, done, linked, sent, routed) =
      connects sizes (registered.nodes 1) 2 10 (registered.links 1) 0 counted mine down in
    value_or_lem registered (replaced registered 1 b (Counts.bump 2 (registered.links 1)))
      (establish_at sizes registered 1 2 10) (rw done refl)

met-Reachable : Reachable sizes one_byte met
met-Reachable =
    next registered-Reachable (establishes 1 2 10 mine down unlinked introducible) established

announceable :
    can_send sizes (met.nodes 1).config.max_frame_size (announcement (SubOpts.subscribe news))
    ≡ true
unfolding fragment_rpc_message into_rpc SubOpts.into_proto establish_at
    rust_libp2p_pubsub.Behaviour.Swarm.on_connection_established Manager.peer_connections_count
    HashMap.get Manager.on_connection_established register_inbound_at
    rust_libp2p_pubsub.Prelude.ℕ_discrete Manager.register_inbound HashMap.insert new
    rust_libp2p_pubsub.Collections.VecMap.add rust_libp2p_pubsub.Behaviour.send_rpc_frame
announceable = refl

abbrev net : Net
net = subscribe_at sizes met 1 news_topic

net-Reachable : Reachable sizes one_byte net
net-Reachable = next met-Reachable (subscribes 1 news_topic announceable) refl

Reachable-word_example : word net 1 2 news ≡ truth net 1 2 news
Reachable-word_example = Reachable-word sizes one_byte net-Reachable 1 2 news refl

-- A handler in which a subscription waits, and its end.
abbrev waiting : SimpleHandler (List RpcProto)
waiting = record (Simple.new [] 1000 120 5) {
  outbound_substream = some (waiting_output []);
  send_queue = announcement (SubOpts.subscribe news) ∷ announcement (SubOpts.unsubscribe news) ∷ [];
}

stale_route_example :
    (h' : SimpleHandler (List RpcProto)) × (stream' : List RpcProto) × (frames : List RpcProto)
    × (Simple.poll sink waiting 6 ≡ broken h')
    × (h'.outbound_substream ≡ some (waiting_output stream'))
    × (stream' ≡ [] ++ frames)
    × (b' : Behaviour) × (handle_all sizes one_byte (new Config.default 1) 1 frames ≡ returned b')
    × (BTreeSet.contains 1 (propagation_routes b'.router news) ≡ true)
unfolding Simple.new new
stale_route_example =
    stale_route sizes one_byte sink (λ s. s) sink_takes_all waiting 6 [] (new Config.default 1) 1
      news (SubOpts.unsubscribe news ∷ []) refl refl refl empty-IsCoherent refl
