-- ===== src/Behaviour.antt =====
-- floodsub/src/behaviour.rs: the network behaviour, over the connections, the router, the generator of
-- numbers and a queue of events for the swarm. Debug assertions are modelled as they run in a
-- development build: a call may panic.
pub mod Incoming
pub mod Outgoing
pub mod Swarm
pub mod Sending
pub mod Grouping
pub mod Receiving
pub mod Assertions
pub mod Entries
pub mod Frames
pub mod Untouched
pub mod Connecting
pub mod Subscribing
pub mod Publishing
pub mod Addressing
pub mod Network
pub mod Steps
pub mod Safety
mod Node
mod Examples
use rust_libp2p_pubsub.Prelude.{ℕ, ◌+◌, Option, none, some, List, [], ◌∷◌, ◌++◌}
use rust_libp2p_pubsub.Prelude.Order.{ℕ-ord}
use rust_libp2p_pubsub.Libp2p.{PeerId}
use rust_libp2p_pubsub.Config.{Config}
use rust_libp2p_pubsub.Topic.{TopicHash}
use rust_libp2p_pubsub.Connections.Manager
use rust_libp2p_pubsub.Connections.Manager.{ConnectionManager}
use rust_libp2p_pubsub.Router
use rust_libp2p_pubsub.Router.{Router}
use rust_libp2p_pubsub.SeqNo
use rust_libp2p_pubsub.SeqNo.{MessageSeqNumberGenerator}
use rust_libp2p_pubsub.Proto.{RpcProto}
use rust_libp2p_pubsub.Proto.Fragmentation
use rust_libp2p_pubsub.Proto.Fragmentation.{Sizes, FragmentationError, fragment_rpc_message}
use rust_libp2p_pubsub.Frame.Message.{Message}
use rust_libp2p_pubsub.Handler.Types.{Command, send_frame}

pub data Event : Type 0 where
  message : PeerId → TopicHash → Message → Event

pub data SendError : Type 0 where
  insufficient_peers : SendError
  fragmentation_failed : FragmentationError → SendError

pub data PublishError : Type 0 where
  not_subscribed : PublishError
  message_publish_failed : SendError → PublishError

pub data SubscriptionError : Type 0 where
  subscription_publish_failed : SendError → SubscriptionError

pub data Result {ℓ} (E A : Type ℓ) : Type ℓ where
  ok : A → Result E A
  err : E → Result E A

-- `ToSwarm`: an event for the application, or a command for any handler of a peer's connections.
pub data ToSwarm : Type 0 where
  generate_event : Event → ToSwarm
  notify_handler : PeerId → Command → ToSwarm

pub record Behaviour : Type 0 where
  pub config : Config
  pub swarm_out_events : List ToSwarm
  pub connections : ConnectionManager
  pub router : Router
  pub message_seqno_generator : MessageSeqNumberGenerator
  pub message_author : Option PeerId

-- `new`; the clock's nanoseconds seed the generator.
unfoldable pub new : Config → ℕ → Behaviour
new config unix_nanos = record {
  config = config;
  swarm_out_events = [];
  connections = Manager.empty;
  router = Router.empty;
  message_seqno_generator = SeqNo.linear (SeqNo.new unix_nanos);
  message_author = none;
}

abbrev pub emit_behaviour_event : Behaviour → Event → Behaviour
emit_behaviour_event b event = record b {
  swarm_out_events = b.swarm_out_events ++ generate_event event ∷ [];
}

abbrev pub emit_handler_event : Behaviour → PeerId → Command → Behaviour
emit_handler_event b peer event = record b {
  swarm_out_events = b.swarm_out_events ++ notify_handler peer event ∷ [];
}

unfoldable pub emit_frames : Behaviour → PeerId → List RpcProto → Behaviour
emit_frames b dst [] = b
emit_frames b dst (frame ∷ frames) =
    emit_frames (emit_handler_event b dst (send_frame frame)) dst frames

-- `poll`: the event at the front of the queue.
unfoldable pub poll : Behaviour → Behaviour × Option ToSwarm
poll b = elim b.swarm_out_events [
  | [] ↦ (b, none)
  | event ∷ events ↦ (record b { swarm_out_events = events }, some event)
]

module _ (s : Sizes) where
  -- `send_rpc_frame`
  unfoldable pub send_rpc_frame :
      Behaviour → PeerId → RpcProto → Behaviour × Result SendError (Unit {0})
  unfolding emit_frames
  send_rpc_frame b dst frame = elim (fragment_rpc_message s b.config.max_frame_size frame) [
    | Fragmentation.ok frames ↦ (emit_frames b dst frames, ok tt)
    | Fragmentation.err e ↦ (b, err (fragmentation_failed e))
  ]

  -- The loops that send one frame to several peers and only log what fails.
  unfoldable pub send_to_all : Behaviour → List PeerId → RpcProto → Behaviour
  send_to_all b [] frame = b
  send_to_all b (peer ∷ peers) frame = send_to_all (send_rpc_frame b peer frame).0 peers frame
