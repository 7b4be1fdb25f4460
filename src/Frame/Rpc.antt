-- ===== src/Frame/Rpc.antt =====
-- floodsub/src/frame/rpc.rs: a frame of subscription actions and messages.
use rust_libp2p_pubsub.Prelude.{◌≡◌, not, ◌&&◌, none, List, [], map, is_empty, arith}
use rust_libp2p_pubsub.Proto.{RpcProto}
use rust_libp2p_pubsub.Proto.Validation.{is_ok, validate_rpc_proto}
use rust_libp2p_pubsub.Frame.Message
use rust_libp2p_pubsub.Frame.Message.{Message}
use rust_libp2p_pubsub.Frame.SubOpts
use rust_libp2p_pubsub.Frame.SubOpts.{SubscriptionAction}

pub record Frame : Type 0 where
  pub subscriptions : List SubscriptionAction
  pub messages : List Message

abbrev new : List SubscriptionAction → List Message → Frame
new subscriptions messages = record { subscriptions = subscriptions; messages = messages }

abbrev pub new_with_subscriptions : List SubscriptionAction → Frame
new_with_subscriptions subscriptions = record { subscriptions = subscriptions; messages = [] }

abbrev pub new_with_messages : List Message → Frame
new_with_messages messages = record { subscriptions = []; messages = messages }

-- `From<Frame> for RpcProto`; floodsub sends no control messages.
unfoldable pub into_rpc : Frame → RpcProto
into_rpc frame = record {
  subscriptions = map SubOpts.into_proto frame.subscriptions;
  publish = map Message.into_proto frame.messages;
  control = none;
}

-- A frame as the crate writes it passes the validation exactly if it holds a message or a
-- subscription.
pub validate-into_rpc :
    (f : Frame)
    → is_ok (validate_rpc_proto (into_rpc f))
      ≡ not (is_empty f.messages && is_empty f.subscriptions)
unfolding validate_rpc_proto into_rpc
validate-into_rpc f = ground arith
