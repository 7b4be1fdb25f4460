-- ===== src/Collections/BTreeSet.antt =====
-- `std::collections::BTreeSet` as an ascending list.
use rust_libp2p_pubsub.Prelude.{
  ◌≡◌, refl, ite, Bool, true, false, List, [], ◌∷◌, arith, if◌then◌else◌, All, is_empty, not, ◌&&◌,
  ◌||◌,
}
use rust_libp2p_pubsub.Prelude.Order.{Ord, same}
use rust_libp2p_pubsub.Collections.Vec

abbrev pub BTreeSet {ℓ} : Type ℓ → Type ℓ
BTreeSet K = List K

module _ {ℓ} {K : Type ℓ} ⦃o : Ord K⦄ where
  unfoldable pub contains : K → BTreeSet K → Bool
  contains k [] = false
  contains k (x ∷ xs) = same k x || contains k xs

  unfoldable pub insert : K → BTreeSet K → BTreeSet K
  insert k [] = k ∷ []
  insert k (x ∷ xs) = ite (o.dec k x) (x ∷ xs) (if o.less k x then k ∷ x ∷ xs else x ∷ insert k xs)

  unfoldable pub remove : K → BTreeSet K → BTreeSet K
  remove k [] = []
  remove k (x ∷ xs) = ite (o.dec k x) (remove k xs) (x ∷ remove k xs)

  pub contains-insert :
      (j k : K) (s : BTreeSet K) → contains j (insert k s) ≡ (same j k || contains j s)
  unfolding contains insert
  contains-insert j k [] = refl
  contains-insert j k (x ∷ xs) = ground (arith, contains-insert j k xs)

  pub contains-remove :
      (j k : K) (s : BTreeSet K) → contains j (remove k s) ≡ (not (same j k) && contains j s)
  unfolding contains remove
  contains-remove j k [] = ground arith
  contains-remove j k (x ∷ xs) = ground (arith, contains-remove j k xs)

  pub is_empty-insert : (k : K) (s : BTreeSet K) → is_empty (insert k s) ≡ false
  unfolding insert
  is_empty-insert k [] = refl
  is_empty-insert k (x ∷ xs) = ground arith

  -- Each element is below all that follow it, so none stands twice.
  abbrev pub IsAscending : BTreeSet K → Type 0
  IsAscending [] = Unit {0}
  IsAscending (x ∷ xs) = All (λ y. o.less x y ≡ true) xs × IsAscending xs

  All-insert :
      (x k : K) (s : BTreeSet K)
      → o.less x k ≡ true
      → All (λ y. o.less x y ≡ true) s
      → All (λ y. o.less x y ≡ true) (insert k s)
  unfolding insert
  All-insert x k [] h a = (h, tt)
  All-insert x k (y ∷ s) h a = ground (arith, All-insert x k s)

  All-weaken :
      (x y : K) (s : BTreeSet K)
      → o.less x y ≡ true
      → All (λ z. o.less y z ≡ true) s
      → All (λ z. o.less x z ≡ true) s
  All-weaken x y [] h a = tt
  All-weaken x y (z ∷ s) h a = (o.trans x y z h a.0, All-weaken x y s h a.1)

  pub insert-IsAscending : (k : K) (s : BTreeSet K) → IsAscending s → IsAscending (insert k s)
  unfolding insert
  insert-IsAscending k [] h = (tt, tt)
  insert-IsAscending k (x ∷ s) h =
      ground (arith, insert-IsAscending k s, All-weaken k x s, All-insert x k s, o.total k x)

  All-remove :
      (x k : K) (s : BTreeSet K)
      → All (λ y. o.less x y ≡ true) s
      → All (λ y. o.less x y ≡ true) (remove k s)
  unfolding remove
  All-remove x k [] a = tt
  All-remove x k (y ∷ s) a = ground (arith, All-remove x k s)

  pub remove-IsAscending : (k : K) (s : BTreeSet K) → IsAscending s → IsAscending (remove k s)
  unfolding remove
  remove-IsAscending k [] h = tt
  remove-IsAscending k (x ∷ s) h = ground (arith, remove-IsAscending k s, All-remove x k s)

  pub contains-vec : (k : K) (s : BTreeSet K) → Vec.contains k s ≡ contains k s
  unfolding contains Vec.contains
  contains-vec k [] = refl
  contains-vec k (x ∷ xs) = ground (arith, contains-vec k xs)

  above-missing :
      (x : K) (s : BTreeSet K) → All (λ y. o.less x y ≡ true) s → Vec.contains x s ≡ false
  unfolding Vec.contains
  above-missing x [] a = refl
  above-missing x (y ∷ s) a = ground (arith, above-missing x s a.1, o.irrefl x)

  pub ascending-IsNodup : (s : BTreeSet K) → IsAscending s → Vec.IsNodup s
  ascending-IsNodup [] a = tt
  ascending-IsNodup (x ∷ xs) a = (above-missing x xs a.0, ascending-IsNodup xs a.1)
