-- ===== src/Frame/Examples.antt =====
-- Runs of the conversions of floodsub/src/frame.
use rust_libp2p_pubsub.Prelude.{
  ◌≡◌, ◌≢◌, refl, false, some, [], ◌∷◌, is_empty, arith, ◌↔◌, if◌then◌else◌,
}
use rust_libp2p_pubsub.Prelude.Outcome.{returned, panicked}
use rust_libp2p_pubsub.Proto.Validation.{Checked, validate_message_proto, validate_subopts_proto}
use rust_libp2p_pubsub.Frame.Message
use rust_libp2p_pubsub.Frame.Message.{
  Message, source, payload, sequence_number, topic_str, topic, or_empty, drop_empty,
}
use rust_libp2p_pubsub.Frame.Message.Sanitized.{from_proto_lem}
use rust_libp2p_pubsub.Frame.Message.Fields.{published, published-reads}
use rust_libp2p_pubsub.Frame.SubOpts
use rust_libp2p_pubsub.Frame.SubOpts.{
  SubscriptionAction, topic_id, from_proto-into_proto, into_proto-from_proto,
}
use rust_libp2p_pubsub.Fixtures.{one_byte, note, news}

note_valid : validate_message_proto one_byte.from_bytes note ≡ Checked.ok
unfolding validate_message_proto
note_valid = refl

from_proto_lem_example :
    ((Message.from_proto note).proto ≡ record note {
      payload = or_empty note.payload;
      signature = drop_empty note.signature;
      key = drop_empty note.key;
    })
    × (validate_message_proto one_byte.from_bytes (Message.from_proto note).proto ≡ Checked.ok)
    × (source one_byte (Message.from_proto note) ≢ panicked)
    × (payload (Message.from_proto note) ≢ panicked)
    × (sequence_number (Message.from_proto note) ≢ panicked)
    × (is_empty (topic_str (Message.from_proto note)) ≡ false)
from_proto_lem_example = from_proto_lem one_byte note note_valid

abbrev letter : Message
letter = published one_byte news (b'h' ∷ []) (some 7) (some 513)

published-reads_example :
    (source one_byte letter ≡ returned (some 7))
    × (sequence_number letter ≡ returned (some 513))
    × (payload letter ≡ returned (b'h' ∷ []))
    × (topic letter ≡ news)
    × (validate_message_proto one_byte.from_bytes letter.proto ≡ Checked.ok)
published-reads_example =
    published-reads one_byte news (b'h' ∷ []) (some 7) (some 513) (omega arith) refl

from_proto-into_proto_example :
    (SubOpts.from_proto (SubOpts.into_proto (SubOpts.subscribe news)) ≡ (
      if is_empty (topic_id (SubOpts.subscribe news)).hash
      then panicked
      else returned (SubOpts.subscribe news)))
    × ((validate_subopts_proto (SubOpts.into_proto (SubOpts.subscribe news)) ≡ Checked.ok)
        ↔ (is_empty (topic_id (SubOpts.subscribe news)).hash ≡ false))
from_proto-into_proto_example = from_proto-into_proto (SubOpts.subscribe news)
