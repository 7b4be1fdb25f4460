-- ===== src/MessageCache/History.antt =====
-- Histories of calls of floodsub/src/message_cache/cache.rs under a clock that does not go back.
use rust_libp2p_pubsub.Prelude.{ℕ, ◌+◌, ◌≡◌, refl, ◌∙◌, List, [], ◌∷◌, arith}
use rust_libp2p_pubsub.Prelude.Order.{Ord}
use rust_libp2p_pubsub.MessageCache.Entries.{Entry}
use rust_libp2p_pubsub.MessageCache.EntryLaws.{AllBefore-mono}
use rust_libp2p_pubsub.MessageCache.Linked.{LinkedHashMap}
use rust_libp2p_pubsub.MessageCache.Validity.{
  IsValid, entries, new-IsValid, put-IsValid, remove-IsValid, clear-IsValid, capacity-put,
}
use rust_libp2p_pubsub.MessageCache.{
  MessageCache, with_capacity_and_ttl, put, remove, clear_expired_entries,
}

-- Each call comes a time after the last reading of the clock; `put` reads the clock twice.
pub data Call (K V : Type 0) : Type 0 where
  puts : K → V → ℕ → ℕ → Call K V
  removes : K → ℕ → Call K V
  clears : ℕ → Call K V

module _ {K V : Type 0} ⦃o : Ord K⦄ (L : LinkedHashMap K (Entry V)) where
  unfoldable pub step : MessageCache L.Map × ℕ → Call K V → MessageCache L.Map × ℕ
  step (c, t) (puts id message d e) = ((put L c id message (t + d) (t + d + e)).0, t + d + e)
  step (c, t) (removes id d) = ((remove L c id (t + d)).0, t + d)
  step (c, t) (clears d) = (clear_expired_entries L c (t + d), t + d)

  unfoldable pub run : MessageCache L.Map × ℕ → List (Call K V) → MessageCache L.Map × ℕ
  run s [] = s
  run s (c ∷ cs) = run (step s c) cs

  later-IsValid : (c : MessageCache L.Map) (t d : ℕ) → IsValid L c t → IsValid L c (t + d)
  later-IsValid c t d v = record {
    distinct = v.distinct;
    bounded = v.bounded;
    ordered = v.ordered;
    before = AllBefore-mono t (t + d) (entries L c) (omega arith) v.before;
  }

  step-IsValid :
      (s : MessageCache L.Map × ℕ) (c : Call K V)
      → IsValid L s.0 s.1
      → IsValid L (step s c).0 (step s c).1
  unfolding step
  step-IsValid (c, t) (puts id message d e) v =
      put-IsValid L c id message (t + d) (t + d + e) (omega arith) (later-IsValid c t d v)
  step-IsValid (c, t) (removes id d) v = remove-IsValid L c id (t + d) (later-IsValid c t d v)
  step-IsValid (c, t) (clears d) v = clear-IsValid L c (t + d) (later-IsValid c t d v)

  run_from-IsValid :
      (s : MessageCache L.Map × ℕ) (cs : List (Call K V))
      → IsValid L s.0 s.1
      → IsValid L (run s cs).0 (run s cs).1
  unfolding run
  run_from-IsValid s [] v = v
  run_from-IsValid s (c ∷ cs) v = run_from-IsValid (step s c) cs (step-IsValid s c v)

  step-capacity : (s : MessageCache L.Map × ℕ) (c : Call K V) → (step s c).0.capacity ≡ s.0.capacity
  unfolding step remove clear_expired_entries
  step-capacity (c, t) (puts id message d e) = capacity-put L c id message (t + d) (t + d + e)
  step-capacity (c, t) (removes id d) = refl
  step-capacity (c, t) (clears d) = refl

  run_from-capacity :
      (s : MessageCache L.Map × ℕ) (cs : List (Call K V)) → (run s cs).0.capacity ≡ s.0.capacity
  unfolding run
  run_from-capacity s [] = refl
  run_from-capacity s (c ∷ cs) = run_from-capacity (step s c) cs ∙ step-capacity s c

  -- After any calls on a new cache no id stands twice, there are no more entries than the given
  -- capacity, and they stand in the order of their times, none of which lies ahead of the clock.
  pub run-IsValid :
      (capacity ttl t : ℕ) (cs : List (Call K V))
      → let s = run (with_capacity_and_ttl L capacity ttl, t) cs in
        IsValid L s.0 s.1 × (s.0.capacity ≡ capacity)
  run-IsValid capacity ttl t cs =
      let new : MessageCache L.Map = with_capacity_and_ttl L capacity ttl in
      (
        run_from-IsValid (new, t) cs (new-IsValid L capacity ttl t),
        run_from-capacity (new, t) cs ∙ (unfold with_capacity_and_ttl in refl),
      )
