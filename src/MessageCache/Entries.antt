-- ===== src/MessageCache/Entries.antt =====
-- The entries of the cache of floodsub/src/message_cache/cache.rs, and its walks over them.
use rust_libp2p_pubsub.Prelude.{ℕ, ◌-◌, Bool, List, [], ◌∷◌, ltb, leb, if◌then◌else◌}

pub record Entry (V : Type 0) : Type 0 where
  pub timestamp : ℕ
  pub message : V

-- `entry.timestamp.elapsed() > self.ttl`, and `<=`
abbrev pub is_expired : {V : Type 0} → ℕ → ℕ → Entry V → Bool
is_expired ttl now entry = ltb ttl (now - entry.timestamp)

abbrev pub is_alive : {V : Type 0} → ℕ → ℕ → Entry V → Bool
is_alive ttl now entry = leb (now - entry.timestamp) ttl

module _ {K V : Type 0} (ttl now : ℕ) where
  -- `skip_while(expired)`
  unfoldable pub skip_expired : List (K × Entry V) → List (K × Entry V)
  skip_expired [] = []
  skip_expired ((k, e) ∷ es) = if is_expired ttl now e then skip_expired es else (k, e) ∷ es

  -- The first loop of `clear_expired_entries`: it breaks at an entry that is alive.
  unfoldable pub expired_keys : List (K × Entry V) → List K
  expired_keys [] = []
  expired_keys ((k, e) ∷ es) = if is_alive ttl now e then [] else k ∷ expired_keys es
