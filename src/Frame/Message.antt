-- ===== src/Frame/Message.antt =====
-- floodsub/src/frame/message.rs: a message and its protobuf form. How libp2p writes and reads peer
-- ids is an argument (`PeerIdBytes`).
pub mod Sanitized
pub mod Fields
use rust_libp2p_pubsub.Prelude.{
  ℕ, ◌≡◌, refl, Bool, true, false, Option, none, some, List, [], ◌∷◌, length, is_empty, ◌==◌,
  if◌then◌else◌,
}
use rust_libp2p_pubsub.Prelude.Order.{Bytes}
use rust_libp2p_pubsub.Prelude.Outcome.{Outcome, returned, panicked}
use rust_libp2p_pubsub.Libp2p.{PeerId, PeerIdBytes}
use rust_libp2p_pubsub.Topic.{TopicHash, from_raw, into_string}
use rust_libp2p_pubsub.Proto.{MessageProto}
use rust_libp2p_pubsub.Proto.Validation.{is_ok, validate_message_proto}
use rust_libp2p_pubsub.Frame.Bytes.{to_be_bytes, from_be_bytes}

pub record Message : Type 0 where
  pub proto : MessageProto

-- `Option::map`
abbrev map_option {ℓ κ} : {A : Type ℓ} {B : Type κ} → (A → B) → Option A → Option B
map_option f none = none
map_option f (some a) = some (f a)

unfoldable pub new : TopicHash → Bytes → Message
new topic payload = record {
  proto = record {
    from = none;
    payload = some payload;
    seqno = none;
    topic = into_string topic;
    signature = none;
    key = none;
  };
}

unfoldable pub set_sequence_number : Message → Option ℕ → Message
set_sequence_number m seq_no = record {
  proto = record (m.proto) { seqno = map_option to_be_bytes seq_no };
}

unfoldable new_with_sequence_number : TopicHash → Bytes → Option ℕ → Message
unfolding new set_sequence_number
new_with_sequence_number topic payload seq_no = set_sequence_number (new topic payload) seq_no

unfoldable pub set_source : PeerIdBytes → Message → Option PeerId → Message
set_source p m source = record {
  proto = record (m.proto) { from = map_option (p.to_bytes) source };
}

unfoldable set_signature : Message → Option Bytes → Message
set_signature m signature = record { proto = record (m.proto) { signature = signature } }

unfoldable set_key : Message → Option Bytes → Message
set_key m key = record { proto = record (m.proto) { key = key } }

-- `expect("valid peer id")`
abbrev expect_some : Option PeerId → Outcome (Option PeerId)
expect_some none = panicked
expect_some (some peer) = returned (some peer)

unfoldable pub source : PeerIdBytes → Message → Outcome (Option PeerId)
source p m = elim m.proto.from [
  | none ↦ returned none
  | some bytes ↦ expect_some (p.from_bytes bytes)
]

-- `data.as_ref().unwrap()`
unfoldable pub payload : Message → Outcome Bytes
payload m = elim m.proto.payload [ none ↦ panicked | some bytes ↦ returned bytes ]

-- `bytes[..].try_into().unwrap()` wants eight bytes.
unfoldable pub sequence_number : Message → Outcome (Option ℕ)
sequence_number m = elim m.proto.seqno [
  | none ↦ returned none
  | some bytes ↦ if length bytes == 8 then returned (some (from_be_bytes bytes)) else panicked
]

abbrev pub topic_str : Message → Bytes
topic_str m = m.proto.topic

abbrev pub topic : Message → TopicHash
topic m = from_raw (topic_str m)

abbrev pub signature : Message → Option Bytes
signature m = m.proto.signature

abbrev pub key : Message → Option Bytes
key m = m.proto.key

-- An empty field is taken for one that is not present.
abbrev pub drop_empty : Option Bytes → Option Bytes
drop_empty none = none
drop_empty (some bytes) = if is_empty bytes then none else some bytes

abbrev pub or_empty : Option Bytes → Option Bytes
or_empty none = some []
or_empty (some bytes) = some bytes

-- `From<MessageProto>`
unfoldable pub from_proto : MessageProto → Message
from_proto proto = record {
  proto = record {
    from = drop_empty proto.from;
    payload = or_empty proto.payload;
    seqno = drop_empty proto.seqno;
    topic = proto.topic;
    signature = drop_empty proto.signature;
    key = drop_empty proto.key;
  };
}

-- What `from_proto` asserts of its result in a development build; its caller asserts it.
abbrev pub from_proto_assertion : (Bytes → Option PeerId) → MessageProto → Bool
from_proto_assertion from_bytes proto =
    is_ok (validate_message_proto from_bytes (from_proto proto).proto)

abbrev pub into_proto : Message → MessageProto
into_proto m = m.proto
