-- ===== src/Libp2p.antt =====
-- Identities that libp2p gives out and the crate only stores and compares: peers, connections
-- and addresses. They stand as numbers.
use rust_libp2p_pubsub.Prelude.{ℕ, ◌≡◌, Option, none, some, []}
use rust_libp2p_pubsub.Prelude.Order.{Bytes}

abbrev pub PeerId : Type 0
PeerId = ℕ

abbrev pub ConnectionId : Type 0
ConnectionId = ℕ

abbrev pub Multiaddr : Type 0
Multiaddr = ℕ

-- `PeerId::from_bytes` and `PeerId::to_bytes`: what was written is read back, and a peer id, which is
-- a multihash, is never empty.
pub record PeerIdBytes : Type 0 where
  pub from_bytes : Bytes → Option PeerId
  pub to_bytes : PeerId → Bytes
  pub from_bytes-to_bytes : (p : PeerId) → from_bytes (to_bytes p) ≡ some p
  pub from_bytes-nil : from_bytes [] ≡ none
