-- ===== src/Behaviour/Node.antt =====
-- A node of floodsub/src/behaviour.rs for the examples, with the peers 1, 2 and 3, of which 2 and 3 are
-- subscribed to a topic, as the node is, and 1 has the only connection.
use rust_libp2p_pubsub.Prelude.{
  ℕ, ◌+◌, ◌-◌, ◌≡◌, refl, Bool, true, false, not, ◌&&◌, ◌||◌, Option, none, some, List, [], ◌∷◌,
  ◌++◌, arith, ltb, ◌==◌, is_empty, if◌then◌else◌,
}
use rust_libp2p_pubsub.Prelude.Order.{ℕ-ord}
use rust_libp2p_pubsub.Libp2p.{PeerId}
use rust_libp2p_pubsub.Config
use rust_libp2p_pubsub.Topic.{TopicHash-ord}
use rust_libp2p_pubsub.Collections.Vec.{contains}
use rust_libp2p_pubsub.Collections.HashMap
use rust_libp2p_pubsub.Collections.VecMap.{add, add_once}
use rust_libp2p_pubsub.Connections.Manager
use rust_libp2p_pubsub.Connections.Manager.{ConnectionManager}
use rust_libp2p_pubsub.Connections.Manager.Invariant.{belongs, counted, lookup, is_up}
use rust_libp2p_pubsub.Connections.Manager.Counts.{Reach, start, inbound, establish, bump}
use rust_libp2p_pubsub.Router
use rust_libp2p_pubsub.Router.{Router, propagation_routes}
use rust_libp2p_pubsub.Router.Invariant.{IsCoherent, empty-IsCoherent}
use rust_libp2p_pubsub.Router.Refinement.{Call, subscribes, adds, run, run-IsCoherent}
use rust_libp2p_pubsub.SeqNo.{linear}
use rust_libp2p_pubsub.Behaviour.{Behaviour}
use rust_libp2p_pubsub.Fixtures.{news}

abbrev calls : List Call
calls = subscribes news ∷ adds 2 news ∷ adds 3 news ∷ []

abbrev pub router : Router
router = run Router.empty calls

pub router-IsCoherent : IsCoherent router
router-IsCoherent = run-IsCoherent Router.empty calls empty-IsCoherent

abbrev pub registered : ConnectionManager
registered = Manager.register_inbound Manager.empty 10 1 100 101

abbrev pub connected : ConnectionManager
connected = Manager.on_connection_established registered 1 10

abbrev pub counts : PeerId → ℕ
counts = bump 1 (λ p. 0)

pub registered-Reach : Reach registered (λ p. 0)
unfolding Manager.register_inbound HashMap.get
registered-Reach = inbound 10 1 100 101 start refl

pub registered-belongs : belongs registered 1 10 ≡ true
unfolding Manager.register_inbound HashMap.get contains add_once HashMap.insert
    rust_libp2p_pubsub.Prelude.ℕ_discrete
registered-belongs = refl

pub registered-down : is_up (lookup registered 10) ≡ false
unfolding Manager.register_inbound HashMap.get HashMap.insert rust_libp2p_pubsub.Prelude.ℕ_discrete
registered-down = refl

pub connected-Reach : Reach connected counts
connected-Reach = establish 1 10 registered-Reach registered-belongs registered-down

pub connected-counted : counted connected 1 10 ≡ true
unfolding Manager.on_connection_established HashMap.get contains Manager.register_inbound
    HashMap.insert rust_libp2p_pubsub.Prelude.ℕ_discrete add
connected-counted = refl

-- The node before its first connection is established, and after.
abbrev pub node : ConnectionManager → Behaviour
node connections = record {
  config = Config.default;
  swarm_out_events = [];
  connections = connections;
  router = router;
  message_seqno_generator = linear (record { value = 41 });
  message_author = some 9;
}

abbrev pub b : Behaviour
b = node connected
