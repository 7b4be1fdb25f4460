-- ===== src/MessageCache.antt =====
-- floodsub/src/message_cache/cache.rs: the cache of messages that were seen. Times are numbers, and
-- a call gets the clock's readings as arguments; `elapsed` stops at 0.
pub mod Linked
pub mod Entries
pub mod EntryLaws
pub mod ValidEntries
pub mod Validity
pub mod Lookups
pub mod Contract
pub mod History
mod Examples
use rust_libp2p_pubsub.Prelude.{
  ℕ, ◌-◌, Bool, true, false, Option, none, some, List, [], ◌∷◌, ltb, leb, length, if◌then◌else◌,
}
use rust_libp2p_pubsub.Prelude.Order.{Ord}
use Linked.{LinkedHashMap}
use Entries.{Entry, is_expired, is_alive, skip_expired, expired_keys}

pub record MessageCache (M : Type 0) : Type 0 where
  pub capacity : ℕ
  pub ttl : ℕ
  pub cache : M

module _ {K V : Type 0} ⦃o : Ord K⦄ (L : LinkedHashMap K (Entry V)) where
  abbrev Cache : Type 0
  Cache = MessageCache L.Map

  unfoldable pub with_capacity_and_ttl : ℕ → ℕ → Cache
  with_capacity_and_ttl capacity ttl = record {
    capacity = capacity;
    ttl = ttl;
    cache = L.with_capacity capacity;
  }

  -- `Default`: 1024 messages, 5 seconds (in milliseconds)
  abbrev pub default : Cache
  default = with_capacity_and_ttl 1024 5000

  -- The last part of `put`: the oldest entry goes if the cache is over its capacity.
  unfoldable pub make_room : Cache → Cache
  make_room c =
      if ltb c.capacity (L.len c.cache) then record c { cache = L.pop_front c.cache } else c

  -- `now` is read for the test, and `later` for the new timestamp.
  unfoldable pub put : Cache → K → V → ℕ → ℕ → Cache × Bool
  put c id message now later = elim (L.get id c.cache) [
    | some entry ↦ (
      make_room (record c {
        cache = L.to_back id (L.set id (record entry { timestamp = later }) c.cache);
      }),
      is_expired c.ttl now entry,
    )
    | none ↦ (
      make_room (record c {
        cache = L.insert id (record { timestamp = later; message = message }) c.cache;
      }),
      true,
    )
  ]

  unfoldable pub len : Cache → ℕ → ℕ
  len c now = length (skip_expired c.ttl now (L.iter c.cache))

  unfoldable pub contains_key : Cache → K → ℕ → Bool
  contains_key c id now = elim (L.get id c.cache) [
    | none ↦ false
    | some entry ↦ is_alive c.ttl now entry
  ]

  -- `filter(not expired)`, then the message
  abbrev fresh_message : ℕ → ℕ → Option (Entry V) → Option V
  fresh_message ttl now none = none
  fresh_message ttl now (some entry) = if is_alive ttl now entry then some entry.message else none

  unfoldable pub get : Cache → K → ℕ → Option V
  get c id now = fresh_message c.ttl now (L.get id c.cache)

  unfoldable pub remove : Cache → K → ℕ → Cache × Option V
  remove c id now =
      (record c { cache = L.remove id c.cache }, fresh_message c.ttl now (L.get id c.cache))

  -- The second loop of `clear_expired_entries`.
  unfoldable pub remove_keys : List K → L.Map → L.Map
  remove_keys [] m = m
  remove_keys (id ∷ ids) m = remove_keys ids (L.remove id m)

  unfoldable pub clear_expired_entries : Cache → ℕ → Cache
  clear_expired_entries c now = record c {
    cache = remove_keys (expired_keys c.ttl now (L.iter c.cache)) c.cache;
  }
