-- ===== src/Codec.antt =====
-- common/src/codec/prost_protobuf.rs: messages on a stream of bytes. The framing (`UviBytes` of the
-- crate `unsigned_varint`) and the protobuf encoding (`prost`) are arguments.
pub mod Laws
pub mod Stream
pub mod RoundTrip
mod Examples
use rust_libp2p_pubsub.Prelude.{ℕ, Option, none, some, []}
use rust_libp2p_pubsub.Prelude.Order.{Bytes}

-- `Result<A, io::Error>`
pub data IoResult {ℓ} (A : Type ℓ) : Type ℓ where
  ok : A → IoResult A
  failed : IoResult A

-- A codec of byte strings. Encoding adds to the bytes that are there, decoding takes from them.
pub record UviBytes : Type 1 where
  pub State : Type 0
  pub default : State
  pub set_max_len : State → ℕ → State
  pub encode : State → Bytes → Bytes → State × Bytes × IoResult (Unit {0})
  pub decode : State → Bytes → State × Bytes × IoResult (Option Bytes)

-- `prost::Message` of a type of messages: what is written, and what is read of it, if it can be.
pub record Prost (M : Type 0) : Type 0 where
  pub encode_message : M → Bytes
  pub decode_message : Bytes → Option M

module _ (U : UviBytes) where
  pub record Codec : Type 0 where
    pub uvi : U.State

  unfoldable pub new : ℕ → Codec
  new max_message_len_bytes = record { uvi = U.set_max_len U.default max_message_len_bytes }

  module _ {M : Type 0} (P : Prost M) where
    -- The buffer has the capacity that `prost` asks for, so that its encoding does not fail.
    unfoldable pub encode : Codec → M → Bytes → Codec × Bytes × IoResult (Unit {0})
    encode c item dst =
        let (uvi, bytes, result) = U.encode c.uvi (P.encode_message item) dst in
        (record { uvi = uvi }, bytes, result)

    -- `Message::decode`, where the framing has given a whole message.
    unfoldable pub read_message : IoResult (Option Bytes) → IoResult (Option M)
    read_message failed = failed
    read_message (ok none) = ok none
    read_message (ok (some bytes)) = elim (P.decode_message bytes) [
      | none ↦ failed
      | some message ↦ ok (some message)
    ]

    unfoldable pub decode : Codec → Bytes → Codec × Bytes × IoResult (Option M)
    unfolding read_message
    decode c src =
        let (uvi, rest, result) = U.decode c.uvi src in
        (record { uvi = uvi }, rest, read_message result)
