-- ===== src/MessageCache/Lookups.antt =====
-- What is found under a key among the entries of a cache of floodsub/src/message_cache/cache.rs.
use rust_libp2p_pubsub.Prelude.{
  ℕ, ◌≤◌, ◌<◌, ◌≡◌, refl, ap, ◌∙◌, Bool, true, false, not, ◌&&◌, Option, none, some, List, [], ◌∷◌,
  ◌++◌, leb, length, if◌then◌else◌, arith, length-append, Bool-cases, inl, inr,
}
use rust_libp2p_pubsub.Prelude.Order.{Ord, same}
use rust_libp2p_pubsub.Collections.Vec.{contains, IsNodup}
use rust_libp2p_pubsub.Collections.HashMap
use rust_libp2p_pubsub.Collections.HashMap.{keys}
use rust_libp2p_pubsub.MessageCache.Entries.{Entry, is_alive}
use rust_libp2p_pubsub.MessageCache.EntryLaws.{alive, remove_missing, get-append, length-remove}
use rust_libp2p_pubsub.MessageCache.ValidEntries.{AreValid, trim, refreshed, put_entries}

abbrev pub is_victim : {K : Type 0} ⦃o : Ord K⦄ → K → Option K → Bool
is_victim k none = false
is_victim k (some j) = same k j

trim_small : {A : Type 0} (n : ℕ) (xs : List A) → length xs ≤ n → trim n xs ≡ xs
trim_small n xs h = ground arith

trim_big : {A : Type 0} (n : ℕ) (x : A) (xs : List A) → n ≤ length xs → trim n (x ∷ xs) ≡ xs
trim_big n x xs h = ground arith

module _ {K V : Type 0} ⦃o : Ord K⦄ where
  -- The key whose entry a `put` drops: the oldest one, if the id is new and the cache is full.
  abbrev pub victim : ℕ → K → List (K × Entry V) → Option K
  victim capacity id [] = none
  victim capacity id (e ∷ es) =
      if not (contains id (keys (e ∷ es))) && leb capacity (length (e ∷ es)) then some e.0 else none

  get_head_gone :
      (j : K) (e : K × Entry V) (es : List (K × Entry V))
      → IsNodup (keys (e ∷ es))
      → HashMap.get j es ≡ (if same j e.0 then none else HashMap.get j (e ∷ es))
  unfolding HashMap.get
  get_head_gone j e es n = ground (arith, HashMap.contains-keys j es)

  get-touched :
      (j id : K) (e : Entry V) (es : List (K × Entry V))
      → HashMap.get j (HashMap.remove id es ++ (id, e) ∷ [])
        ≡ (if same j id then some e else HashMap.get j es)
  get-touched j id e es = ground (
    arith,
    get-append j id e (HashMap.remove id es),
    HashMap.get-remove id id es,
    HashMap.get-remove j id es,
  )

  -- The entries after a `put` of an id that is there: none is dropped.
  put_entries_there :
      (capacity : ℕ) (id : K) (message : V) (later : ℕ) (es : List (K × Entry V))
      → contains id (keys es) ≡ true
      → length es ≤ capacity
      → put_entries capacity id message later es
        ≡ HashMap.remove id es ++ (id, refreshed (HashMap.get id es) message later) ∷ []
  put_entries_there capacity id message later es there bounded =
      let e = refreshed (HashMap.get id es) message later in
      let touched : List (K × Entry V) = HashMap.remove id es ++ (id, e) ∷ [] in
      trim_small capacity touched (
        omega
          (arith, length-append (HashMap.remove id es) ((id, e) ∷ []), length-remove id es there))

  -- And of a new one: the oldest goes if the cache was full.
  put_entries_new :
      (capacity : ℕ) (id : K) (message : V) (later : ℕ) (f : K × Entry V) (es : List (K × Entry V))
      → contains id (keys (f ∷ es)) ≡ false
      → put_entries capacity id message later (f ∷ es)
        ≡ (if leb capacity (length (f ∷ es)) then es else f ∷ es)
          ++ (id, record { timestamp = later; message = message }) ∷ []
  put_entries_new capacity id message later f es new =
      let e : Entry V = record { timestamp = later; message = message } in
      let grown : List (K × Entry V) = es ++ (id, e) ∷ [] in
      let missing : HashMap.get id (f ∷ es) ≡ none =
        ground (arith, HashMap.contains-keys id (f ∷ es)) in
      let joined = λ (m : Option (Entry V)) (l : List (K × Entry V)).
        trim capacity (l ++ (id, refreshed m message later) ∷ []) in
      ap (joined (HashMap.get id (f ∷ es))) (remove_missing id (f ∷ es) new)
      ∙ ap (λ (m : Option (Entry V)). joined m (f ∷ es)) missing
      ∙ ground (arith, length-append es ((id, e) ∷ []))

  pub get-put_entries :
      (capacity : ℕ) (id : K) (message : V) (now later : ℕ) (es : List (K × Entry V)) (j : K)
      → AreValid capacity now es
      → 0 < capacity
      → HashMap.get j (put_entries capacity id message later es) ≡ (
          if same j id
          then some (refreshed (HashMap.get id es) message later)
          else if is_victim j (victim capacity id es)
          then none
          else HashMap.get j es)
  unfolding HashMap.get HashMap.remove
  get-put_entries capacity id message now later [] j v h =
      let e : Entry V = refreshed none message later in
      let only : List (K × Entry V) = (id, e) ∷ [] in
      ap (HashMap.get j) (trim_small capacity only (omega arith)) ∙ ground arith
  get-put_entries capacity id message now later (f ∷ es) j v h =
      let e : Entry V = refreshed (HashMap.get id (f ∷ es)) message later in
      elim (Bool-cases (contains id (keys (f ∷ es)))) [
        | inl there ↦
            ap (HashMap.get j)
              (put_entries_there capacity id message later (f ∷ es) there v.bounded)
            ∙ get-touched j id e (f ∷ es)
            ∙ ground (arith, there)
        | inr new ↦
            ap (HashMap.get j) (put_entries_new capacity id message later f es new)
            ∙ ground (
              arith,
              new,
              HashMap.contains-keys id (f ∷ es),
              HashMap.contains-keys id es,
              get-append j id (record { timestamp = later; message = message }) es,
              get-append j id (record { timestamp = later; message = message }) (f ∷ es),
              get_head_gone j f es v.distinct,
              get_head_gone id f es v.distinct,
            )
      ]

  pub get-alive :
      (ttl now : ℕ) (es : List (K × Entry V)) (j : K)
      → IsNodup (keys es)
      → HashMap.get j (alive ttl now es) ≡ elim (HashMap.get j es) [
        | none ↦ none
        | some e ↦ if is_alive ttl now e then some e else none
      ]
  unfolding HashMap.get
  get-alive ttl now [] j n = refl
  get-alive ttl now (e ∷ es) j n =
      ground (arith, get-alive ttl now es j n.1, HashMap.contains-keys j es)
