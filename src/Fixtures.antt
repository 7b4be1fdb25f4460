-- ===== src/Fixtures.antt =====
-- Data for the examples: two topics, a message, lengths of protobuf messages on the wire, a writer of
-- peer ids, and a stream that takes what it is given.
use rust_libp2p_pubsub.Prelude.{
  ℕ, ◌+◌, ◌≡◌, refl, Bool, true, false, Option, none, some, List, [], ◌∷◌, ◌++◌, arith, length,
}
use rust_libp2p_pubsub.Prelude.Order.{Bytes}
use rust_libp2p_pubsub.Libp2p.{PeerId, PeerIdBytes}
use rust_libp2p_pubsub.Topic.{TopicHash, Topic, from_raw, identity_hash}
use rust_libp2p_pubsub.Proto.{MessageProto, SubOptsProto, RpcProto}
use rust_libp2p_pubsub.Proto.Fragmentation.{Sizes}
use rust_libp2p_pubsub.Proto.Fragmentation.Lengths.{WireFormat, varint_len}
use rust_libp2p_pubsub.Handler.Types.{
  Framed, pending, ready, ConnectionEvent, fully_negotiated_inbound, fully_negotiated_outbound,
  denied_inbound, dial_upgrade_error, listen_upgrade_error, EventKinds,
}
use rust_libp2p_pubsub.Handler.Simple.Order.{TakesAll}

abbrev pub news : TopicHash
news = from_raw (b'n' ∷ [])

abbrev pub sport : TopicHash
sport = from_raw (b's' ∷ [])

abbrev pub news_topic : Topic
news_topic = record { topic = b'n' ∷ []; hasher = identity_hash }

-- A peer id is one byte.
abbrev read_peer : Bytes → Option PeerId
read_peer (b ∷ []) = some b
read_peer _ = none

abbrev pub one_byte : PeerIdBytes
one_byte = record {
  from_bytes = read_peer;
  to_bytes = λ p. p ∷ [];
  from_bytes-to_bytes = λ p. refl;
  from_bytes-nil = refl;
}

abbrev payload_len : Option Bytes → ℕ
payload_len none = 0
payload_len (some bytes) = length bytes

abbrev message_len : MessageProto → ℕ
message_len m = length m.topic + payload_len m.payload

abbrev subopts_len : SubOptsProto → ℕ
subopts_len sub = 2 + payload_len sub.topic_id

-- What the items of a repeated field take.
abbrev items_len : {A : Type 0} → (A → ℕ) → List A → ℕ
items_len f [] = 0
items_len f (x ∷ xs) = 1 + varint_len (f x) + f x + items_len f xs

items_len-push :
    {A : Type 0} (f : A → ℕ) (xs : List A) (x : A)
    → items_len f (xs ++ x ∷ []) ≡ items_len f xs + (1 + varint_len (f x) + f x)
items_len-push f [] x = omega arith
items_len-push f (y ∷ xs) x = omega (arith, items_len-push f xs x)

abbrev pub sizes : Sizes
sizes = record {
  rpc_len = λ r. items_len subopts_len r.subscriptions + items_len message_len r.publish;
  message_len = message_len;
  subopts_len = subopts_len;
  control_len = λ c. 0;
  ihave_len = λ i. 4;
  iwant_len = λ i. 4;
  graft_len = λ i. 4;
  prune_len = λ i. 4;
}

pub wire_format : WireFormat sizes
wire_format = record {
  new_len = refl;
  publish_len = λ r m. omega (arith, items_len-push message_len r.publish m);
  subscription_len = λ r m. omega (arith, items_len-push subopts_len r.subscriptions m);
}

abbrev pub note : MessageProto
note = record {
  from = some (7 ∷ []);
  payload = some (b'h' ∷ b'i' ∷ []);
  seqno = none;
  topic = b'n' ∷ [];
  signature = none;
  key = none;
}

abbrev pub note_frame : RpcProto
note_frame = record { subscriptions = []; publish = note ∷ []; control = none }

-- A stream that takes what it is given, and gives nothing.
abbrev pub sink : Framed
sink = record {
  Socket = ℕ;
  Substream = List RpcProto;
  new = λ k size. [];
  poll_next = λ s. (s, pending);
  poll_close = λ s. (s, ready true);
  poll_ready = λ s. (s, ready true);
  start_send = λ s m. (s ++ m ∷ [], true);
  poll_flush = λ s. (s, ready true);
}

abbrev pub sink_takes_all : TakesAll sink (λ s. s)
sink_takes_all = record {
  is_ready = λ s. refl;
  sends = λ s m. refl;
  flushes = λ s. refl;
  sent-ready = λ s. refl;
  sent-send = λ s m. refl;
  sent-flush = λ s. refl;
}

abbrev is_inbound : ConnectionEvent ℕ → Bool
is_inbound (fully_negotiated_inbound k) = true
is_inbound denied_inbound = true
is_inbound listen_upgrade_error = true
is_inbound _ = false

abbrev is_outbound : ConnectionEvent ℕ → Bool
is_outbound (fully_negotiated_outbound k) = true
is_outbound (dial_upgrade_error e) = true
is_outbound _ = false

abbrev pub event_kinds : EventKinds ℕ
event_kinds = record {
  is_inbound = is_inbound;
  is_outbound = is_outbound;
  inbound_negotiated = λ k. refl;
  inbound_not_outbound = λ k. refl;
  denied_is_inbound = refl;
  denied_not_outbound = refl;
  outbound_negotiated = λ k. refl;
  outbound_not_inbound = λ k. refl;
  dial_is_outbound = λ e. refl;
  dial_not_inbound = λ e. refl;
  listen_is_inbound = refl;
  listen_not_outbound = refl;
  address_not_inbound = refl;
  address_not_outbound = refl;
  other_not_inbound = refl;
  other_not_outbound = refl;
}
