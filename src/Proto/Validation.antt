-- ===== src/Proto/Validation.antt =====
-- floodsub/src/proto/validation.rs: what is checked of a received frame. Whether bytes are a peer id
-- is libp2p's answer, an argument.
use rust_libp2p_pubsub.Prelude.{
  Bool, true, false, not, ◌&&◌, ◌==◌, Option, none, some, length, is_empty, if◌then◌else◌,
}
use rust_libp2p_pubsub.Prelude.Order.{Bytes}
use rust_libp2p_pubsub.Libp2p.{PeerId}
use rust_libp2p_pubsub.Proto.{MessageProto, SubOptsProto, ControlMessageProto, RpcProto}

pub data MessageValidationError : Type 0 where
  empty_topic invalid_peer_id invalid_sequence_number : MessageValidationError

pub data SubOptsValidationError : Type 0 where
  empty_topic missing_topic missing_action : SubOptsValidationError

pub data ControlMessageValidationError : Type 0 where
  empty_control : ControlMessageValidationError

pub data RpcValidationError : Type 0 where
  empty_rpc : RpcValidationError

-- `Result<(), E>`
pub data Checked (E : Type 0) : Type 0 where
  ok : Checked E
  err : E → Checked E

abbrev pub is_ok : {E : Type 0} → Checked E → Bool
is_ok ok = true
is_ok (err e) = false

abbrev is_none {ℓ} : {A : Type ℓ} → Option A → Bool
is_none none = true
is_none (some a) = false

-- `Some(peer_id)` whose bytes are no peer id
abbrev bad_peer : (Bytes → Option PeerId) → Option Bytes → Bool
bad_peer from_bytes none = false
bad_peer from_bytes (some peer_id) = is_none (from_bytes peer_id)

-- `Some(seq_no)` that has not 8 bytes
abbrev bad_seqno : Option Bytes → Bool
bad_seqno none = false
bad_seqno (some seq_no) = not (length seq_no == 8)

unfoldable pub validate_message_proto :
    (Bytes → Option PeerId) → MessageProto → Checked MessageValidationError
validate_message_proto from_bytes message =
    if is_empty message.topic
    then err MessageValidationError.empty_topic
    else if bad_peer from_bytes message.from
    then err invalid_peer_id
    else if bad_seqno message.seqno
    then err invalid_sequence_number
    else ok

unfoldable check_action : Option Bool → Checked SubOptsValidationError
check_action none = err missing_action
check_action (some subscribe) = ok

unfoldable pub validate_subopts_proto : SubOptsProto → Checked SubOptsValidationError
unfolding check_action
validate_subopts_proto subopts = elim subopts.topic_id [
  | none ↦ err missing_topic
  | some topic ↦
      if is_empty topic
      then err SubOptsValidationError.empty_topic
      else check_action subopts.subscribe
]

unfoldable validate_control_proto : ControlMessageProto → Checked ControlMessageValidationError
validate_control_proto control =
    if is_empty control.ihave
      && is_empty control.iwant
      && is_empty control.graft
      && is_empty control.prune
    then err empty_control
    else ok

-- `matches!(control, Some(control) if validate_control_proto(control).is_ok())`
abbrev has_valid_control : Option ControlMessageProto → Bool
has_valid_control none = false
has_valid_control (some control) = is_ok (validate_control_proto control)

unfoldable pub validate_rpc_proto : RpcProto → Checked RpcValidationError
unfolding validate_control_proto
validate_rpc_proto rpc =
    if is_empty rpc.publish && is_empty rpc.subscriptions && not (has_valid_control rpc.control)
    then err empty_rpc
    else ok
