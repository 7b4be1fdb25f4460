-- ===== src/MessageCache/Contract.antt =====
-- What the calls of floodsub/src/message_cache/cache.rs answer, and what a reader finds afterwards.
use rust_libp2p_pubsub.Prelude.{
  ℕ, ◌-◌, ◌≤◌, ◌<◌, ◌≡◌, refl, ap, ◌∙◌, not, Option, none, some, leb, length, if◌then◌else◌, arith,
}
use rust_libp2p_pubsub.Prelude.Order.{Ord, same}
use rust_libp2p_pubsub.Collections.HashMap
use rust_libp2p_pubsub.Collections.HashMap.{keys}
use rust_libp2p_pubsub.MessageCache.Entries.{Entry}
use rust_libp2p_pubsub.MessageCache.EntryLaws.{alive, skip_expired-alive}
use rust_libp2p_pubsub.MessageCache.Linked.{LinkedHashMap}
use rust_libp2p_pubsub.MessageCache.Validity.{IsValid, entries, entries-put, entries-clear, ttl-put}
use rust_libp2p_pubsub.MessageCache.{
  MessageCache, put, len, contains_key, get, remove, clear_expired_entries,
}
use rust_libp2p_pubsub.MessageCache.Lookups.{is_victim, victim, get-put_entries, get-alive}

module _ {K V : Type 0} ⦃o : Ord K⦄ (L : LinkedHashMap K (Entry V)) where
  -- The message that a `put` leaves under its id: the one that was there, however old, or its own.
  abbrev kept_message : Option (Entry V) → V → V
  kept_message none message = message
  kept_message (some e) message = e.message

  -- `put` reports `true` exactly if `contains_key` finds nothing under the id at that time.
  pub put-contains_key :
      (c : MessageCache L.Map) (id : K) (message : V) (now later : ℕ)
      → (put L c id message now later).1 ≡ not (contains_key L c id now)
  unfolding put contains_key
  put-contains_key c id message now later = ground arith

  -- A reader finds what `contains_key` says that there is.
  get-contains_key :
      (c : MessageCache L.Map) (id : K) (now : ℕ)
      → HashMap.is_some (get L c id now) ≡ contains_key L c id now
  unfolding get contains_key
  get-contains_key c id now = ground arith

  -- After a `put` in a valid cache with room for an entry, a reader at any time finds under the
  -- id, for the time to live, the message that was there before or else the new one; nothing under
  -- the key that had to go; and elsewhere what it found before.
  pub get-put :
      (c : MessageCache L.Map) (id : K) (message : V) (now later : ℕ) (j : K) (t : ℕ)
      → IsValid L c now
      → 0 < c.capacity
      → get L (put L c id message now later).0 j t ≡ (
          if same j id
          then (if leb (t - later) c.ttl
              then some (kept_message (HashMap.get id (entries L c)) message)
              else none)
          else if is_victim j (victim c.capacity id (entries L c))
          then none
          else get L c j t)
  unfolding get
  get-put c id message now later j t v h = ground (
    arith,
    L.get_lem j (put L c id message now later).0.cache,
    ap (HashMap.get j) (entries-put L c id message now later),
    get-put_entries c.capacity id message now later (entries L c) j v h,
    L.get_lem j c.cache,
    ttl-put L c id message now later,
  )

  -- In a valid cache `len`, which skips the expired entries at the front, counts all entries that
  -- are alive.
  pub len-alive :
      (c : MessageCache L.Map) (now : ℕ)
      → IsValid L c now
      → len L c now ≡ length (alive c.ttl now (entries L c))
  unfolding len
  len-alive c now v = ap length (skip_expired-alive c.ttl now (entries L c) v.ordered)

  entries-clear_alive :
      (c : MessageCache L.Map) (now : ℕ)
      → IsValid L c now
      → entries L (clear_expired_entries L c now) ≡ alive c.ttl now (entries L c)
  entries-clear_alive c now v =
      entries-clear L c now v.distinct ∙ skip_expired-alive c.ttl now (entries L c) v.ordered

  ttl-clear : (c : MessageCache L.Map) (now : ℕ) → (clear_expired_entries L c now).ttl ≡ c.ttl
  unfolding clear_expired_entries
  ttl-clear c now = refl

  -- After the expired entries of a valid cache are cleared, a reader at that time or later finds
  -- what it would have found.
  pub get-clear :
      (c : MessageCache L.Map) (now : ℕ) (j : K) (t : ℕ)
      → IsValid L c now
      → now ≤ t
      → get L (clear_expired_entries L c now) j t ≡ get L c j t
  unfolding get
  get-clear c now j t v le = ground (
    arith,
    L.get_lem j (clear_expired_entries L c now).cache,
    ap (HashMap.get j) (entries-clear_alive c now v),
    get-alive c.ttl now (entries L c) j v.distinct,
    L.get_lem j c.cache,
    ttl-clear c now,
  )

  -- `remove` returns what a reader finds, and leaves nothing under the id and the rest as it was.
  pub remove_lem :
      (c : MessageCache L.Map) (id : K) (now : ℕ) (j : K) (t : ℕ)
      → ((remove L c id now).1 ≡ get L c id now)
        × (get L (remove L c id now).0 j t ≡ (if same j id then none else get L c j t))
  unfolding get remove
  remove_lem c id now j t = (
    refl,
    ground (
      arith,
      L.get_lem j (L.remove id c.cache),
      ap (HashMap.get j) (L.iter-remove id c.cache),
      HashMap.get-remove j id (entries L c),
      L.get_lem j c.cache,
    ),
  )
