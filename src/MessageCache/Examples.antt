-- ===== src/MessageCache/Examples.antt =====
-- Runs of the cache of floodsub/src/message_cache/cache.rs, on a list of entries: two messages at
-- most, which live for ten units of time.
use rust_libp2p_pubsub.Prelude.{
  ℕ, ◌≡◌, refl, not, ◌-◌, ltb, if◌then◌else◌, Option, none, some, List, [], ◌∷◌, arith, length,
}
use rust_libp2p_pubsub.Prelude.Order.{ℕ-ord}
use rust_libp2p_pubsub.MessageCache.Linked.{LinkedHashMap, entry_list}
use rust_libp2p_pubsub.MessageCache.Entries.{Entry}
use rust_libp2p_pubsub.MessageCache.{
  MessageCache, with_capacity_and_ttl, put, get, len, remove, clear_expired_entries,
}
use rust_libp2p_pubsub.MessageCache.Validity.{IsValid}
use rust_libp2p_pubsub.MessageCache.Contract.{get-put, len-alive, get-clear, remove_lem}
use rust_libp2p_pubsub.MessageCache.History.{Call, puts, run, run-IsValid}

abbrev entry_map : LinkedHashMap ℕ (Entry ℕ)
entry_map = entry_list ℕ (Entry ℕ)

abbrev calls : List (Call ℕ ℕ)
calls = puts 1 11 2 0 ∷ puts 2 12 1 0 ∷ puts 3 13 1 1 ∷ []

abbrev after : MessageCache (List (ℕ × Entry ℕ)) × ℕ
after = run entry_map (with_capacity_and_ttl entry_map 2 10, 0) calls

abbrev full : MessageCache (List (ℕ × Entry ℕ))
full = record {
  capacity = 2;
  ttl = 10;
  cache =
      (2, record { timestamp = 3; message = 12 })
      ∷ (3, record { timestamp = 5; message = 13 })
      ∷ [];
}

full-IsValid : IsValid entry_map full 5
unfolding rust_libp2p_pubsub.Collections.Vec.contains
full-IsValid = ground arith

later-IsValid : IsValid entry_map full 14
unfolding rust_libp2p_pubsub.Collections.Vec.contains
later-IsValid = ground arith

run-IsValid_example : IsValid entry_map after.0 after.1 × (after.0.capacity ≡ 2)
run-IsValid_example = run-IsValid entry_map 2 10 0 calls

get-put_example : get entry_map (put entry_map full 2 99 14 14).0 2 20 ≡ some 12
unfolding rust_libp2p_pubsub.Prelude.ℕ_discrete rust_libp2p_pubsub.Collections.HashMap.get
get-put_example = get-put entry_map full 2 99 14 14 2 20 later-IsValid (omega arith)

len-alive_example : len entry_map full 5 ≡ 2
len-alive_example = len-alive entry_map full 5 full-IsValid

get-clear_example :
    get entry_map (clear_expired_entries entry_map full 14) 3 15 ≡ get entry_map full 3 15
get-clear_example = get-clear entry_map full 14 3 15 later-IsValid (omega arith)

remove_lem_example :
    ((remove entry_map full 2 5).1 ≡ get entry_map full 2 5)
    × (get entry_map (remove entry_map full 2 5).0 2 6 ≡ none)
unfolding rust_libp2p_pubsub.Prelude.ℕ_discrete
remove_lem_example = remove_lem entry_map full 2 5 2 6
