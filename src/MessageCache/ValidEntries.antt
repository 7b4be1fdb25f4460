-- ===== src/MessageCache/ValidEntries.antt =====
-- The entries of a valid cache of floodsub/src/message_cache/cache.rs, and what its calls make of them.
use rust_libp2p_pubsub.Prelude.{
  ℕ, ◌≤◌, ◌≡◌, refl, Option, none, some, List, [], ◌∷◌, ◌++◌, ltb, length, if◌then◌else◌, arith,
  length-append, Bool-cases, inl, inr,
}
use rust_libp2p_pubsub.Prelude.Order.{Ord}
use rust_libp2p_pubsub.Collections.Vec.{IsNodup}
use rust_libp2p_pubsub.Collections.HashMap
use rust_libp2p_pubsub.Collections.HashMap.{keys}
use rust_libp2p_pubsub.MessageCache.Entries.{Entry, is_expired, skip_expired}
use rust_libp2p_pubsub.MessageCache.EntryLaws.{
  IsOrdered, AllBefore, All-append, IsOrdered-append, AllBefore-mono, remove-IsOrdered,
  remove-AllBefore, remove_missing, remove-insert, append-IsNodup, length-remove-le,
}
use rust_libp2p_pubsub.MessageCache.Linked.{tail, moved_back}

-- The last step of `put`.
abbrev pub trim : {A : Type 0} → ℕ → List A → List A
trim capacity es = if ltb capacity (length es) then tail es else es

-- What `put` leaves under the id: the time is new, and a message that is there stays.
abbrev pub refreshed : {V : Type 0} → Option (Entry V) → V → ℕ → Entry V
refreshed none message later = record { timestamp = later; message = message }
refreshed (some e) message later = record e { timestamp = later }

refreshed_timestamp :
    {V : Type 0} (o : Option (Entry V)) (message : V) (later : ℕ)
    → (refreshed o message later).timestamp ≡ later
refreshed_timestamp none message later = refl
refreshed_timestamp (some e) message later = refl

module _ {K V : Type 0} ⦃o : Ord K⦄ where
  -- At a time: no id twice, no more entries than the capacity, and the oldest first.
  pub record AreValid (capacity now : ℕ) (es : List (K × Entry V)) : Type 0 where
    pub distinct : IsNodup (keys es)
    pub bounded : length es ≤ capacity
    pub ordered : IsOrdered es
    pub before : AllBefore now es

  -- The entries after a `put`.
  abbrev pub put_entries : ℕ → K → V → ℕ → List (K × Entry V) → List (K × Entry V)
  put_entries capacity id message later es =
      trim capacity (HashMap.remove id es ++ (id, refreshed (HashMap.get id es) message later) ∷ [])

  length-touch :
      (capacity : ℕ) (id : K) (e : Entry V) (es : List (K × Entry V))
      → length es ≤ capacity
      → length (trim capacity (HashMap.remove id es ++ (id, e) ∷ [])) ≤ capacity
  length-touch capacity id e es h =
      let grown = HashMap.remove id es ++ (id, e) ∷ [] in
      ground (arith, length-append (HashMap.remove id es) ((id, e) ∷ []), length-remove-le id es)

  trim-IsNodup :
      (capacity : ℕ) (es : List (K × Entry V))
      → IsNodup (keys es)
      → IsNodup (keys (trim capacity es))
  trim-IsNodup capacity [] n = ground arith
  trim-IsNodup capacity (e ∷ es) n = ground arith

  trim-IsOrdered :
      (capacity : ℕ) (es : List (K × Entry V)) → IsOrdered es → IsOrdered (trim capacity es)
  trim-IsOrdered capacity [] n = ground arith
  trim-IsOrdered capacity (e ∷ es) n = ground arith

  trim-AllBefore :
      (capacity now : ℕ) (es : List (K × Entry V))
      → AllBefore now es
      → AllBefore now (trim capacity es)
  trim-AllBefore capacity now [] n = ground arith
  trim-AllBefore capacity now (e ∷ es) n = ground arith

  remove_gone : (id : K) (es : List (K × Entry V)) → HashMap.get id (HashMap.remove id es) ≡ none
  remove_gone id es = ground (arith, HashMap.get-remove id id es)

  pub put_entries-AreValid :
      (capacity : ℕ) (id : K) (message : V) (now later : ℕ) (es : List (K × Entry V))
      → now ≤ later
      → AreValid capacity now es
      → AreValid capacity later (put_entries capacity id message later es)
  put_entries-AreValid capacity id message now later es le v =
      let e = refreshed (HashMap.get id es) message later in
      let kept = HashMap.remove id es in
      let before = remove-AllBefore later id es (AllBefore-mono now later es le v.before) in
      record {
        distinct = trim-IsNodup capacity (kept ++ (id, e) ∷ []) (
            append-IsNodup id e kept (remove_gone id es) (HashMap.remove-IsNodup id es v.distinct));
        bounded = length-touch capacity id e es v.bounded;
        ordered = trim-IsOrdered capacity (kept ++ (id, e) ∷ []) (
            IsOrdered-append kept (id, e)
              (rw (refreshed_timestamp (HashMap.get id es) message later) before)
              (remove-IsOrdered id es v.ordered));
        before = trim-AllBefore capacity later (kept ++ (id, e) ∷ []) (
            All-append later kept ((id, e) ∷ []) before
              (omega (arith, refreshed_timestamp (HashMap.get id es) message later), tt));
      }

  pub touch_missing :
      (id : K) (message : V) (later : ℕ) (es : List (K × Entry V))
      → HashMap.get id es ≡ none
      → es ++ (id, record { timestamp = later; message = message }) ∷ []
        ≡ HashMap.remove id es ++ (id, refreshed (HashMap.get id es) message later) ∷ []
  touch_missing id message later es e =
      ground (arith, remove_missing id es, HashMap.contains-keys id es)

  pub touch_found :
      (id : K) (message : V) (later : ℕ) (es : List (K × Entry V)) (entry : Entry V)
      → HashMap.get id es ≡ some entry
      → moved_back id (HashMap.insert id (record entry { timestamp = later }) es)
        ≡ HashMap.remove id es ++ (id, refreshed (HashMap.get id es) message later) ∷ []
  touch_found id message later es entry e = ground (
    arith,
    HashMap.get-insert id id (record entry { timestamp = later }) es,
    remove-insert id (record entry { timestamp = later }) es,
  )

  pub remove_entries-AreValid :
      (capacity now : ℕ) (id : K) (es : List (K × Entry V))
      → AreValid capacity now es
      → AreValid capacity now (HashMap.remove id es)
  remove_entries-AreValid capacity now id es v = record {
    distinct = HashMap.remove-IsNodup id es v.distinct;
    bounded = omega (arith, length-remove-le id es, v.bounded);
    ordered = remove-IsOrdered id es v.ordered;
    before = remove-AllBefore now id es v.before;
  }

  pub skip-AreValid :
      (ttl capacity now : ℕ) (es : List (K × Entry V))
      → AreValid capacity now es
      → AreValid capacity now (skip_expired ttl now es)
  unfolding skip_expired
  skip-AreValid ttl capacity now [] v = v
  skip-AreValid ttl capacity now ((k, e) ∷ es) v = elim (Bool-cases (is_expired ttl now e)) [
    | inl old ↦ rw old (
        skip-AreValid ttl capacity now es (record {
          distinct = v.distinct.1;
          bounded = omega (arith, v.bounded);
          ordered = v.ordered.1;
          before = v.before.1;
        }))
    | inr new ↦ rw new v
  ]
