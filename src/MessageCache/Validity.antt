-- ===== src/MessageCache/Validity.antt =====
-- What holds of a cache of floodsub/src/message_cache/cache.rs between two calls.
use rust_libp2p_pubsub.Prelude.{
  ℕ, ◌≤◌, ◌≡◌, refl, sym, ap, ◌∙◌, List, [], ◌∷◌, arith, Option-cases, inl, inr,
}
use rust_libp2p_pubsub.Prelude.Order.{Ord}
use rust_libp2p_pubsub.Collections.Vec.{IsNodup}
use rust_libp2p_pubsub.Collections.HashMap.{keys}
use rust_libp2p_pubsub.MessageCache.Entries.{Entry, skip_expired, expired_keys}
use rust_libp2p_pubsub.MessageCache.EntryLaws.{remove_each, remove_each-expired}
use rust_libp2p_pubsub.MessageCache.Linked.{LinkedHashMap, moved_back}
use rust_libp2p_pubsub.MessageCache.{
  MessageCache, with_capacity_and_ttl, make_room, put, remove, remove_keys, clear_expired_entries,
}
use rust_libp2p_pubsub.MessageCache.ValidEntries.{
  trim, AreValid, put_entries, put_entries-AreValid, touch_missing, touch_found,
  remove_entries-AreValid, skip-AreValid,
}

module _ {K V : Type 0} ⦃o : Ord K⦄ (L : LinkedHashMap K (Entry V)) where
  abbrev pub entries : MessageCache L.Map → List (K × Entry V)
  entries c = L.iter c.cache

  abbrev pub IsValid : MessageCache L.Map → ℕ → Type 0
  IsValid c now = AreValid c.capacity now (entries c)

  pub new-IsValid : (capacity ttl now : ℕ) → IsValid (with_capacity_and_ttl L capacity ttl) now
  unfolding with_capacity_and_ttl
  new-IsValid capacity ttl now =
      rw (L.iter-with_capacity capacity)
        (record { distinct = tt; bounded = omega arith; ordered = tt; before = tt })

  entries-make_room :
      (c : MessageCache L.Map) → entries (make_room L c) ≡ trim c.capacity (entries c)
  unfolding make_room
  entries-make_room c = ground (arith, L.len_lem c.cache, L.iter-pop_front c.cache)

  pub entries-put :
      (c : MessageCache L.Map) (id : K) (message : V) (now later : ℕ)
      → entries (put L c id message now later).0
        ≡ put_entries c.capacity id message later (entries c)
  unfolding put
  entries-put c id message now later = elim (Option-cases (L.get id c.cache)) [
    | inl e ↦
        let missing = sym (L.get_lem id c.cache) ∙ e in
        rw (e, put)
          (entries-make_room (record c {
            cache = L.insert id (record { timestamp = later; message = message }) c.cache;
          })
            ∙ ap (trim c.capacity) (
                L.iter-insert id (record { timestamp = later; message = message }) c.cache missing
                ∙ touch_missing id message later (entries c) missing))
    | inr (entry, e) ↦
        let found = sym (L.get_lem id c.cache) ∙ e in
        let fresh : Entry V = record entry { timestamp = later } in
        rw (e, put)
          (entries-make_room (record c { cache = L.to_back id (L.set id fresh c.cache) })
            ∙ ap (trim c.capacity) (
                L.iter-to_back id (L.set id fresh c.cache)
                ∙ ap (moved_back id) (L.iter-set id fresh c.cache)
                ∙ touch_found id message later (entries c) entry found))
  ]

  pub capacity-put :
      (c : MessageCache L.Map) (id : K) (message : V) (now later : ℕ)
      → (put L c id message now later).0.capacity ≡ c.capacity
  unfolding put make_room
  capacity-put c id message now later = ground arith

  pub ttl-put :
      (c : MessageCache L.Map) (id : K) (message : V) (now later : ℕ)
      → (put L c id message now later).0.ttl ≡ c.ttl
  unfolding put make_room
  ttl-put c id message now later = ground arith

  pub put-IsValid :
      (c : MessageCache L.Map) (id : K) (message : V) (now later : ℕ)
      → now ≤ later
      → IsValid c now
      → IsValid (put L c id message now later).0 later
  put-IsValid c id message now later le v =
      rw (entries-put c id message now later, capacity-put c id message now later)
        (put_entries-AreValid c.capacity id message now later (entries c) le v)

  pub remove-IsValid :
      (c : MessageCache L.Map) (id : K) (now : ℕ)
      → IsValid c now
      → IsValid (remove L c id now).0 now
  unfolding remove
  remove-IsValid c id now v =
      rw (L.iter-remove id c.cache) (remove_entries-AreValid c.capacity now id (entries c) v)

  iter-remove_keys :
      (ids : List K) (m : L.Map) → L.iter (remove_keys L ids m) ≡ remove_each ids (L.iter m)
  unfolding remove_keys
  iter-remove_keys [] m = refl
  iter-remove_keys (id ∷ ids) m =
      iter-remove_keys ids (L.remove id m) ∙ ap (remove_each ids) (L.iter-remove id m)

  -- What `clear_expired_entries` leaves is what the walk past the expired entries finds.
  pub entries-clear :
      (c : MessageCache L.Map) (now : ℕ)
      → IsNodup (keys (entries c))
      → entries (clear_expired_entries L c now) ≡ skip_expired c.ttl now (entries c)
  unfolding clear_expired_entries
  entries-clear c now n =
      iter-remove_keys (expired_keys c.ttl now (entries c)) c.cache
      ∙ remove_each-expired c.ttl now (entries c) n

  pub clear-IsValid :
      (c : MessageCache L.Map) (now : ℕ)
      → IsValid c now
      → IsValid (clear_expired_entries L c now) now
  unfolding clear_expired_entries
  clear-IsValid c now v =
      rw
        (
          iter-remove_keys (expired_keys c.ttl now (entries c)) c.cache,
          remove_each-expired c.ttl now (entries c) v.distinct,
        )
        (skip-AreValid c.ttl c.capacity now (entries c) v)
