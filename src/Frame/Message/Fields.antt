-- ===== src/Frame/Message/Fields.antt =====
-- What is set in a message of floodsub/src/frame/message.rs is read back.
use rust_libp2p_pubsub.Prelude.{ℕ, ◌<◌, ◌^◌, ◌≡◌, refl, false, Option, none, some, is_empty, arith}
use rust_libp2p_pubsub.Prelude.Order.{Bytes}
use rust_libp2p_pubsub.Prelude.Outcome.{returned}
use rust_libp2p_pubsub.Libp2p.{PeerId, PeerIdBytes}
use rust_libp2p_pubsub.Topic.{TopicHash}
use rust_libp2p_pubsub.Proto.Validation.{Checked, validate_message_proto}
use rust_libp2p_pubsub.Frame.Bytes.{length-to_be, from_be_bytes-to_be_bytes}
use rust_libp2p_pubsub.Frame.Message.{
  Message, new, set_source, set_sequence_number, source, payload, sequence_number, topic,
}

-- A 64-bit number.
abbrev pub FitsU64 : Option ℕ → Type 0
FitsU64 none = Unit
FitsU64 (some n) = n < 2 ^ 64

pub sequence_number-set :
    (m : Message) (n : Option ℕ)
    → FitsU64 n
    → sequence_number (set_sequence_number m n) ≡ returned n
unfolding sequence_number set_sequence_number
sequence_number-set m none h = refl
sequence_number-set m (some n) h = ground (arith, length-to_be 8 n, from_be_bytes-to_be_bytes n h)

pub source-set :
    (p : PeerIdBytes) (m : Message) (peer : Option PeerId)
    → source p (set_source p m peer) ≡ returned peer
unfolding source set_source
source-set p m none = refl
source-set p m (some peer) = rw (p.from_bytes-to_bytes peer)

-- The message as `Behaviour::publish` builds it.
abbrev pub published : PeerIdBytes → TopicHash → Bytes → Option PeerId → Option ℕ → Message
published p t bytes author seqno = set_sequence_number (set_source p (new t bytes) author) seqno

published-valid :
    (p : PeerIdBytes) (t : TopicHash) (bytes : Bytes) (author : Option PeerId) (seqno : Option ℕ)
    → is_empty t.hash ≡ false
    → validate_message_proto p.from_bytes (published p t bytes author seqno).proto ≡ Checked.ok
unfolding validate_message_proto set_sequence_number set_source new
published-valid p t bytes none none e = ground arith
published-valid p t bytes none (some n) e = ground (arith, length-to_be 8 n)
published-valid p t bytes (some a) none e = ground (arith, p.from_bytes-to_bytes a)
published-valid p t bytes (some a) (some n) e =
    ground (arith, p.from_bytes-to_bytes a, length-to_be 8 n)

-- A message built with a source, a number of 64 bits if any, and a topic that is not empty gives
-- them back with its payload, and passes the validation.
pub published-reads :
    (p : PeerIdBytes) (t : TopicHash) (bytes : Bytes) (author : Option PeerId) (seqno : Option ℕ)
    → FitsU64 seqno
    → is_empty t.hash ≡ false
    → let m = published p t bytes author seqno in
      (source p m ≡ returned author)
      × (sequence_number m ≡ returned seqno)
      × (payload m ≡ returned bytes)
      × (topic m ≡ t)
      × (validate_message_proto p.from_bytes m.proto ≡ Checked.ok)
unfolding validate_message_proto set_sequence_number set_source new source payload
published-reads p t bytes author seqno h e = (
  source-set p (new t bytes) author,
  sequence_number-set (set_source p (new t bytes) author) seqno h,
  refl,
  refl,
  published-valid p t bytes author seqno e,
)
