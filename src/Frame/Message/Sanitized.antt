-- ===== src/Frame/Message/Sanitized.antt =====
-- What the validation of floodsub/src/proto/validation.rs gives the conversion and the readers of
-- floodsub/src/frame/message.rs.
use rust_libp2p_pubsub.Prelude.{◌≡◌, ◌≢◌, false, some, [], is_empty, arith}
use rust_libp2p_pubsub.Prelude.Outcome.{panicked}
use rust_libp2p_pubsub.Libp2p.{PeerIdBytes}
use rust_libp2p_pubsub.Proto.{MessageProto}
use rust_libp2p_pubsub.Proto.Validation.{Checked, is_ok, validate_message_proto}
use rust_libp2p_pubsub.Frame.Message.{
  from_proto, source, payload, sequence_number, topic_str, drop_empty, or_empty,
}

module _ (p : PeerIdBytes) (proto : MessageProto) where
  -- The conversion of a message that passes the validation keeps all but the payload, the
  -- signature and the key, in which it replaces what is not present or empty, and the result
  -- passes the validation again.
  from_proto-valid :
      validate_message_proto p.from_bytes proto ≡ Checked.ok
      → ((from_proto proto).proto ≡ record proto {
        payload = or_empty proto.payload;
        signature = drop_empty proto.signature;
        key = drop_empty proto.key;
      })
        × (validate_message_proto p.from_bytes (from_proto proto).proto ≡ Checked.ok)
  unfolding validate_message_proto from_proto
  from_proto-valid h = (ground (arith, p.from_bytes-nil), ground (arith, p.from_bytes-nil))

  -- No reader of a message converted from one that passes the validation panics, and its topic is
  -- not empty.
  from_proto-reads :
      validate_message_proto p.from_bytes proto ≡ Checked.ok
      → (source p (from_proto proto) ≢ panicked)
        × (payload (from_proto proto) ≢ panicked)
        × (sequence_number (from_proto proto) ≢ panicked)
        × (is_empty (topic_str (from_proto proto)) ≡ false)
  unfolding validate_message_proto from_proto source payload sequence_number
  from_proto-reads h = (ground (arith, p.from_bytes-nil), ground arith, ground arith, ground arith)

  -- The conversion of a message that passes the validation keeps all but the payload, the
  -- signature and the key, in which it replaces what is not present or empty. The result passes
  -- the validation again, none of its readers panics, and its topic is not empty.
  pub from_proto_lem :
      validate_message_proto p.from_bytes proto ≡ Checked.ok
      → ((from_proto proto).proto ≡ record proto {
        payload = or_empty proto.payload;
        signature = drop_empty proto.signature;
        key = drop_empty proto.key;
      })
        × (validate_message_proto p.from_bytes (from_proto proto).proto ≡ Checked.ok)
        × (source p (from_proto proto) ≢ panicked)
        × (payload (from_proto proto) ≢ panicked)
        × (sequence_number (from_proto proto) ≢ panicked)
        × (is_empty (topic_str (from_proto proto)) ≡ false)
  from_proto_lem h =
      let (kept, valid) = from_proto-valid h in
      let (has_source, has_payload, has_number, on_topic) = from_proto-reads h in
      (kept, valid, has_source, has_payload, has_number, on_topic)

  -- The validation refuses a message with an empty source, and one with an empty number.
  pub validate-empty_fields :
      (is_ok (validate_message_proto p.from_bytes (record proto { from = some [] })) ≡ false)
      × (is_ok (validate_message_proto p.from_bytes (record proto { seqno = some [] })) ≡ false)
  unfolding validate_message_proto
  validate-empty_fields = (ground (arith, p.from_bytes-nil), ground (arith, p.from_bytes-nil))
