-- ===== src/MessageCache/EntryLaws.antt =====
-- Facts on the entries of the cache of floodsub/src/message_cache/cache.rs: order by time, and what
-- the walks over them find.
use rust_libp2p_pubsub.Prelude.{
  ℕ, ◌+◌, ◌≤◌, ◌≡◌, refl, ap, ◌∙◌, true, false, none, some, List, [], ◌∷◌, ◌++◌, length,
  if◌then◌else◌, All, arith,
}
use rust_libp2p_pubsub.Prelude.Order.{Ord, same}
use rust_libp2p_pubsub.Collections.Vec
use rust_libp2p_pubsub.Collections.Vec.{contains, IsNodup}
use rust_libp2p_pubsub.Collections.HashMap
use rust_libp2p_pubsub.Collections.HashMap.{keys}
use rust_libp2p_pubsub.MessageCache.Entries.{Entry, is_alive, skip_expired, expired_keys}

module _ {K V : Type 0} where
  -- Oldest first.
  abbrev pub IsOrdered : List (K × Entry V) → Type 0
  IsOrdered [] = Unit {0}
  IsOrdered (e ∷ es) = All (λ f. e.1.timestamp ≤ f.1.timestamp) es × IsOrdered es

  abbrev pub AllBefore : ℕ → List (K × Entry V) → Type 0
  AllBefore now = All (λ e. e.1.timestamp ≤ now)

  -- The entries that a reader at a time can see.
  abbrev pub alive : ℕ → ℕ → List (K × Entry V) → List (K × Entry V)
  alive ttl now [] = []
  alive ttl now (e ∷ es) = if is_alive ttl now e.1 then e ∷ alive ttl now es else alive ttl now es

  alive-All :
      (ttl now t : ℕ) (es : List (K × Entry V))
      → now ≤ t + ttl
      → All (λ f. t ≤ f.1.timestamp) es
      → alive ttl now es ≡ es
  alive-All ttl now t [] h a = refl
  alive-All ttl now t (e ∷ es) h a = ground (arith, alive-All ttl now t es h a.1)

  -- On ordered entries the walk that stops at the first entry alive finds all that are.
  pub skip_expired-alive :
      (ttl now : ℕ) (es : List (K × Entry V))
      → IsOrdered es
      → skip_expired ttl now es ≡ alive ttl now es
  unfolding skip_expired
  skip_expired-alive ttl now [] o = refl
  skip_expired-alive ttl now ((k, e) ∷ es) o =
      ground (arith, skip_expired-alive ttl now es o.1, alive-All ttl now e.timestamp es)

  pub All-append :
      (now : ℕ) (es fs : List (K × Entry V))
      → AllBefore now es
      → AllBefore now fs
      → AllBefore now (es ++ fs)
  All-append now [] fs a b = b
  All-append now (e ∷ es) fs a b = (a.0, All-append now es fs a.1 b)

  All-later :
      (t : ℕ) (es : List (K × Entry V)) (f : K × Entry V)
      → t ≤ f.1.timestamp
      → All (λ g. t ≤ g.1.timestamp) es
      → All (λ g. t ≤ g.1.timestamp) (es ++ f ∷ [])
  All-later t [] f h a = (h, tt)
  All-later t (e ∷ es) f h a = (a.0, All-later t es f h a.1)

  pub IsOrdered-append :
      (es : List (K × Entry V)) (f : K × Entry V)
      → AllBefore f.1.timestamp es
      → IsOrdered es
      → IsOrdered (es ++ f ∷ [])
  IsOrdered-append [] f a o = (tt, tt)
  IsOrdered-append (e ∷ es) f a o =
      (All-later e.1.timestamp es f a.0 o.0, IsOrdered-append es f a.1 o.1)

  pub AllBefore-mono :
      (now later : ℕ) (es : List (K × Entry V))
      → now ≤ later
      → AllBefore now es
      → AllBefore later es
  AllBefore-mono now later [] h a = tt
  AllBefore-mono now later (e ∷ es) h a = (omega arith, AllBefore-mono now later es h a.1)

module _ {K V : Type 0} ⦃o : Ord K⦄ where
  All-remove :
      (t : ℕ) (k : K) (es : List (K × Entry V))
      → All (λ f. t ≤ f.1.timestamp) es
      → All (λ f. t ≤ f.1.timestamp) (HashMap.remove k es)
  unfolding HashMap.remove
  All-remove t k [] a = tt
  All-remove t k (e ∷ es) a = ground (arith, All-remove t k es)

  pub remove-IsOrdered :
      (k : K) (es : List (K × Entry V)) → IsOrdered es → IsOrdered (HashMap.remove k es)
  unfolding HashMap.remove
  remove-IsOrdered k [] h = tt
  remove-IsOrdered k (e ∷ es) h =
      ground (arith, remove-IsOrdered k es h.1, All-remove e.1.timestamp k es h.0)

  pub remove-AllBefore :
      (now : ℕ) (k : K) (es : List (K × Entry V))
      → AllBefore now es
      → AllBefore now (HashMap.remove k es)
  unfolding HashMap.remove
  remove-AllBefore now k [] a = tt
  remove-AllBefore now k (e ∷ es) a = ground (arith, remove-AllBefore now k es)

  pub remove_missing :
      (k : K) (es : List (K × Entry V)) → contains k (keys es) ≡ false → HashMap.remove k es ≡ es
  unfolding HashMap.remove contains
  remove_missing k [] h = refl
  remove_missing k (e ∷ es) h = ground (arith, remove_missing k es)

  -- A write to an entry before the entry is moved away is not seen.
  pub remove-insert :
      (k : K) (e : Entry V) (es : List (K × Entry V))
      → HashMap.remove k (HashMap.insert k e es) ≡ HashMap.remove k es
  unfolding HashMap.remove HashMap.insert
  remove-insert k e [] = ground arith
  remove-insert k e (f ∷ es) = ground (arith, remove-insert k e es)

  pub length-remove-le :
      (k : K) (es : List (K × Entry V)) → length (HashMap.remove k es) ≤ length es
  unfolding HashMap.remove
  length-remove-le k [] = omega arith
  length-remove-le k (e ∷ es) = ground (arith, length-remove-le k es)

  pub length-remove :
      (k : K) (es : List (K × Entry V))
      → contains k (keys es) ≡ true
      → length (HashMap.remove k es) + 1 ≤ length es
  unfolding HashMap.remove contains
  length-remove k [] h = absurd (cc)
  length-remove k (e ∷ es) h = ground (arith, length-remove k es, length-remove-le k es)

  pub get-append :
      (j k : K) (e : Entry V) (es : List (K × Entry V))
      → HashMap.get k es ≡ none
      → HashMap.get j (es ++ (k, e) ∷ []) ≡ (if same j k then some e else HashMap.get j es)
  unfolding HashMap.get
  get-append j k e [] h = ground arith
  get-append j k e (f ∷ es) h = ground (arith, get-append j k e es)

  keys-append :
      (k : K) (e : Entry V) (es : List (K × Entry V))
      → keys (es ++ (k, e) ∷ []) ≡ Vec.push (keys es) k
  keys-append k e [] = refl
  keys-append k e (f ∷ es) = ap (◌∷◌ f.0) (keys-append k e es)

  pub append-IsNodup :
      (k : K) (e : Entry V) (es : List (K × Entry V))
      → HashMap.get k es ≡ none
      → IsNodup (keys es)
      → IsNodup (keys (es ++ (k, e) ∷ []))
  append-IsNodup k e es h n =
      rw (keys-append k e es)
        (Vec.push-IsNodup k (keys es) (HashMap.contains-keys k es ∙ ap HashMap.is_some h) n)

  -- Removal of the keys that the first loop of `clear_expired_entries` collects.
  abbrev pub remove_each : List K → List (K × Entry V) → List (K × Entry V)
  remove_each [] es = es
  remove_each (k ∷ ks) es = remove_each ks (HashMap.remove k es)

  pub remove_each-expired :
      (ttl now : ℕ) (es : List (K × Entry V))
      → IsNodup (keys es)
      → remove_each (expired_keys ttl now es) es ≡ skip_expired ttl now es
  unfolding expired_keys skip_expired HashMap.remove
  remove_each-expired ttl now [] n = refl
  remove_each-expired ttl now ((k, e) ∷ es) n =
      ground (arith, remove_missing k es n.0, remove_each-expired ttl now es n.1)
