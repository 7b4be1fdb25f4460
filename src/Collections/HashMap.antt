-- ===== src/Collections/HashMap.antt =====
-- `std::collections::HashMap` as an association list. A walk over the map takes the list's order;
-- the theorems do not depend on it.
use rust_libp2p_pubsub.Prelude.{
  ◌≡◌, refl, ite, Bool, true, false, not, ◌&&◌, ◌||◌, Option, none, some, List, [], ◌∷◌, map, arith,
}
use rust_libp2p_pubsub.Prelude.Order.{Ord, same}
use rust_libp2p_pubsub.Collections.Vec

abbrev pub HashMap {ℓ} : Type ℓ → Type ℓ → Type ℓ
HashMap K V = List (K × V)

-- `entry(k).or_default()`: the value that is there, or the default
abbrev pub or_default {ℓ} : {V : Type ℓ} → Option V → V → V
or_default none d = d
or_default (some v) d = v

module _ {ℓ} {K V : Type ℓ} ⦃o : Ord K⦄ where
  unfoldable pub get : K → HashMap K V → Option V
  get k [] = none
  get k ((j, v) ∷ m) = ite (o.dec k j) (some v) (get k m)

  -- The value of a key that is there is replaced, and a new key goes to the end.
  unfoldable pub insert : K → V → HashMap K V → HashMap K V
  insert k v [] = (k, v) ∷ []
  insert k v ((j, w) ∷ m) = ite (o.dec k j) ((j, v) ∷ m) ((j, w) ∷ insert k v m)

  unfoldable pub remove : K → HashMap K V → HashMap K V
  remove k [] = []
  remove k ((j, w) ∷ m) = ite (o.dec k j) (remove k m) ((j, w) ∷ remove k m)

  abbrev pub keys : HashMap K V → List K
  keys = map (λ e. e.0)

  pub get-insert :
      (j k : K) (v : V) (m : HashMap K V)
      → get j (insert k v m) ≡ ite (o.dec j k) (some v) (get j m)
  unfolding get insert
  get-insert j k v [] = refl
  get-insert j k v ((i, w) ∷ m) = ground (arith, get-insert j k v m)

  pub get-remove : (j k : K) (m : HashMap K V) → get j (remove k m) ≡ ite (o.dec j k) none (get j m)
  unfolding get remove
  get-remove j k [] = ground arith
  get-remove j k ((i, w) ∷ m) = ground (arith, get-remove j k m)

abbrev pub is_some {ℓ} : {V : Type ℓ} → Option V → Bool
is_some none = false
is_some (some v) = true

module _ {ℓ} {K V : Type ℓ} ⦃o : Ord K⦄ where
  pub contains-keys : (k : K) (m : HashMap K V) → Vec.contains k (keys m) ≡ is_some (get k m)
  unfolding get Vec.contains
  contains-keys k [] = refl
  contains-keys k ((j, v) ∷ m) = ground (arith, contains-keys k m)

  contains-keys-insert :
      (j k : K) (v : V) (m : HashMap K V)
      → Vec.contains j (keys (insert k v m)) ≡ (same j k || Vec.contains j (keys m))
  contains-keys-insert j k v m =
      ground (arith, contains-keys j (insert k v m), contains-keys j m, get-insert j k v m)

  -- Each key stands in the list once.
  pub insert-IsNodup :
      (k : K) (v : V) (m : HashMap K V) → Vec.IsNodup (keys m) → Vec.IsNodup (keys (insert k v m))
  unfolding insert Vec.contains
  insert-IsNodup k v [] n = (refl, tt)
  insert-IsNodup k v ((j, w) ∷ m) n =
      ground (arith, insert-IsNodup k v m, contains-keys-insert j k v m)

  contains-keys-remove :
      (j k : K) (m : HashMap K V)
      → Vec.contains j (keys (remove k m)) ≡ (not (same j k) && Vec.contains j (keys m))
  contains-keys-remove j k m =
      ground (arith, contains-keys j (remove k m), contains-keys j m, get-remove j k m)

  pub remove-IsNodup :
      (k : K) (m : HashMap K V) → Vec.IsNodup (keys m) → Vec.IsNodup (keys (remove k m))
  unfolding remove
  remove-IsNodup k [] n = tt
  remove-IsNodup k ((j, w) ∷ m) n = ground (arith, remove-IsNodup k m, contains-keys-remove j k m)
