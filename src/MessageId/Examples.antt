-- ===== src/MessageId/Examples.antt =====
-- Runs of floodsub/src/message_id.rs, where a peer id is written as one byte.
use rust_libp2p_pubsub.Prelude.{
  ℕ, ◌≡◌, ◌↔◌, refl, some, none, Option, [], ◌∷◌, arith, ◌&&◌, ◌==◌, if◌then◌else◌,
}
use rust_libp2p_pubsub.Prelude.Order.{Bytes}
use rust_libp2p_pubsub.Prelude.Outcome.{returned}
use rust_libp2p_pubsub.Libp2p.{PeerId, PeerIdBytes}
use rust_libp2p_pubsub.Frame.Message.Fields.{published}
use rust_libp2p_pubsub.Fixtures.{news, sport}
use rust_libp2p_pubsub.MessageId.{MessageId, default_message_id_fn}
use rust_libp2p_pubsub.MessageId.Decimal.{to_string, digits}
use rust_libp2p_pubsub.MessageId.Injective.{message_id-injective}

-- A number is written in its decimal digits.
to_string_example : to_string 513 ≡ b'5' ∷ b'1' ∷ b'3' ∷ []
unfolding to_string digits
to_string_example = refl

-- The bytes of a peer id are a multihash: the code of the identity, the length 1 and one byte.
abbrev read_multihash : Bytes → Option PeerId
read_multihash (code ∷ len ∷ peer ∷ []) = if code == 0 && len == 1 then some peer else none
read_multihash _ = none

abbrev multihash : PeerIdBytes
multihash = record {
  from_bytes = read_multihash;
  to_bytes = λ p. 0 ∷ 1 ∷ p ∷ [];
  from_bytes-to_bytes = λ p. refl;
  from_bytes-nil = refl;
}

-- A message with an author, and one without.
message_id-injective_example :
    (i j : MessageId) × (default_message_id_fn multihash
        (λ a. a ∷ [])
        (published multihash news [] (some 7) (some 1))
      ≡ returned i)
    × (default_message_id_fn multihash
          (λ a. a ∷ [])
          (published multihash sport (b'h' ∷ []) none (some 2))
        ≡ returned j)
    × ((i ≡ j) ↔ ((◌≡◌ {A = PeerId} 7 0) × (◌≡◌ {A = ℕ} 1 2)))
message_id-injective_example =
    message_id-injective multihash (λ a. a ∷ []) 0 news sport [] (b'h' ∷ []) (some 7) none 1 2 refl
      (λ w e. cc) (λ w e. cc) (λ e. cc) (omega arith) (omega arith)
