-- ===== src/MessageId.antt =====
-- floodsub/src/message_id.rs: message ids, and the default id of a message. How libp2p writes a peer
-- id as text (`to_base58`) is an argument.
pub mod Decimal
pub mod Injective
mod Examples
use rust_libp2p_pubsub.Prelude.{ℕ, Option, none, some, [], ◌∷◌, ◌++◌}
use rust_libp2p_pubsub.Prelude.Order.{Bytes}
use rust_libp2p_pubsub.Prelude.Outcome.{Outcome, returned, panicked, ◌>>=◌}
use rust_libp2p_pubsub.Libp2p.{PeerId, PeerIdBytes}
use rust_libp2p_pubsub.Frame.Message
use rust_libp2p_pubsub.Frame.Message.{Message}
use Decimal.{to_string}

pub record MessageId : Type 0 where
  pub value : Bytes

abbrev pub new : Bytes → MessageId
new value = record { value = value }

abbrev new_from_slice : Bytes → MessageId
new_from_slice value = record { value = value }

abbrev into_vec : MessageId → Bytes
into_vec id = id.value

-- `expect("Valid peer id")`
abbrev expect_peer : Option PeerId → Outcome PeerId
expect_peer none = panicked
expect_peer (some peer) = returned peer

-- The peer id of the bytes 0, 1, 0, which stands for a source that is not there.
abbrev pub zero_bytes : Bytes
zero_bytes = 0 ∷ 1 ∷ 0 ∷ []

abbrev pub source_or_zero : PeerIdBytes → Option PeerId → Outcome PeerId
source_or_zero p (some peer) = returned peer
source_or_zero p none = expect_peer (p.from_bytes zero_bytes)

-- `unwrap_or_default()`
abbrev pub number_or_zero : Option ℕ → ℕ
number_or_zero none = 0
number_or_zero (some n) = n

unfoldable pub default_message_id_fn : PeerIdBytes → (PeerId → Bytes) → Message → Outcome MessageId
default_message_id_fn p to_base58 msg = do
  source ← Message.source p msg
  peer ← source_or_zero p source
  number ← Message.sequence_number msg
  returned (new (to_base58 peer ++ to_string (number_or_zero number)))
