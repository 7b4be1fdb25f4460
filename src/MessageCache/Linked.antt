-- ===== src/MessageCache/Linked.antt =====
-- `hashlink::LinkedHashMap`, which floodsub/src/message_cache/cache.rs keeps its entries in: the
-- operations that the cache calls, and what hashlink documents of each, on the list of entries from
-- the front (the oldest insertion) to the back.
use rust_libp2p_pubsub.Prelude.{◌≡◌, refl, Option, none, some, List, [], ◌∷◌, ◌++◌, ℕ, length}
use rust_libp2p_pubsub.Prelude.Order.{Ord}
use rust_libp2p_pubsub.Collections.HashMap

abbrev pub tail {ℓ} : {A : Type ℓ} → List A → List A
tail [] = []
tail (x ∷ xs) = xs

-- An entry moved to the end of the list.
abbrev pub moved_back {ℓ} : {K V : Type ℓ} ⦃o : Ord K⦄ → K → List (K × V) → List (K × V)
moved_back k es = elim (HashMap.get k es) [
  | none ↦ es
  | some v ↦ HashMap.remove k es ++ (k, v) ∷ []
]

pub record LinkedHashMap (K V : Type 0) ⦃o : Ord K⦄ : Type 1 where
  pub Map : Type 0
  pub with_capacity : ℕ → Map
  pub iter : Map → List (K × V)
  pub len : Map → ℕ
  pub get : K → Map → Option V
  -- `get_mut` of an occupied entry, and a write through it
  pub set : K → V → Map → Map
  pub to_back : K → Map → Map
  -- `insert` of a vacant entry
  pub insert : K → V → Map → Map
  pub pop_front : Map → Map
  pub remove : K → Map → Map
  pub iter-with_capacity : (n : ℕ) → iter (with_capacity n) ≡ []
  pub len_lem : (m : Map) → len m ≡ length (iter m)
  pub get_lem : (k : K) (m : Map) → get k m ≡ HashMap.get k (iter m)
  pub iter-set : (k : K) (v : V) (m : Map) → iter (set k v m) ≡ HashMap.insert k v (iter m)
  pub iter-to_back : (k : K) (m : Map) → iter (to_back k m) ≡ moved_back k (iter m)
  pub iter-insert :
      (k : K) (v : V) (m : Map)
      → HashMap.get k (iter m) ≡ none
      → iter (insert k v m) ≡ iter m ++ (k, v) ∷ []
  pub iter-pop_front : (m : Map) → iter (pop_front m) ≡ tail (iter m)
  pub iter-remove : (k : K) (m : Map) → iter (remove k m) ≡ HashMap.remove k (iter m)

-- The list of entries itself has these laws.
abbrev pub entry_list : (K V : Type 0) ⦃o : Ord K⦄ → LinkedHashMap K V
entry_list K V = record {
  Map = List (K × V);
  with_capacity = λ n. [];
  iter = λ m. m;
  len = length;
  get = HashMap.get;
  set = HashMap.insert;
  to_back = moved_back;
  insert = λ k v m. m ++ (k, v) ∷ [];
  pop_front = tail;
  remove = HashMap.remove;
  iter-with_capacity = λ n. refl;
  len_lem = λ m. refl;
  get_lem = λ k m. refl;
  iter-set = λ k v m. refl;
  iter-to_back = λ k m. refl;
  iter-insert = λ k v m e. refl;
  iter-pop_front = λ m. refl;
  iter-remove = λ k m. refl;
}
