-- ===== src/Topic.antt =====
-- floodsub/src/topic.rs: topic hashes, topics and their hashers. SHA-256, Base64 and the encoding
-- of a topic descriptor are foreign code, and one argument of `sha256_hasher`.
use rust_libp2p_pubsub.Prelude.{◌≡◌, ap, ◌≢◌, true, false}
use rust_libp2p_pubsub.Prelude.Order.{Ord, Bytes, less_bytes, Bytes-discrete, Bytes-ord}

pub record TopicHash : Type 0 where
  pub hash : Bytes

abbrev pub from_raw : Bytes → TopicHash
from_raw raw = record { hash = raw }

abbrev pub into_string : TopicHash → Bytes
into_string t = t.hash

-- A hasher maps a topic string to a topic hash.
abbrev Hasher : Type 0
Hasher = Bytes → TopicHash

abbrev pub identity_hash : Hasher
identity_hash topic_string = record { hash = topic_string }

-- `digest` encodes the topic descriptor that holds the string, hashes it and encodes the hash.
abbrev sha256_hash : (Bytes → Bytes) → Hasher
sha256_hash digest topic_string = record { hash = digest topic_string }

-- A topic, with the hasher that its type names.
pub record Topic : Type 0 where
  pub topic : Bytes
  pub hasher : Hasher

abbrev pub hash_of : Topic → TopicHash
hash_of t = t.hasher t.topic

unfoldable pub TopicHash-discrete : Discrete TopicHash
unfolding Bytes-discrete
TopicHash-discrete s t = elim (Bytes-discrete s.hash t.hash) [
  | yes p ↦ yes (λ i. record { hash = p i })
  | no p ↦ no (λ e. p (ap (λ (u : TopicHash). u.hash) e))
]

pub less_topic-total :
    (s t : TopicHash) → s ≢ t → less_bytes s.hash t.hash ≡ false → less_bytes t.hash s.hash ≡ true
less_topic-total s t h k = Bytes-ord.total s.hash t.hash (λ p. h (λ i. record { hash = p i })) k

-- `derive(Ord)` compares the strings.
instance abbrev pub TopicHash-ord : Ord TopicHash
TopicHash-ord = record {
  dec = TopicHash-discrete;
  less = λ s t. less_bytes s.hash t.hash;
  irrefl = λ s. Bytes-ord.irrefl s.hash;
  trans = λ s t u. Bytes-ord.trans s.hash t.hash u.hash;
  total = less_topic-total;
}
