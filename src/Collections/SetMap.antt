-- ===== src/Collections/SetMap.antt =====
-- A hash map whose values are ordered sets, and the three idioms by which the router changes one.
use rust_libp2p_pubsub.Prelude.{
  ◌≡◌, Bool, false, not, ◌&&◌, ◌||◌, Option, none, some, [], arith, is_empty, if◌then◌else◌,
  Option-cases, inl, inr,
}
use rust_libp2p_pubsub.Prelude.Order.{Ord, same}
use rust_libp2p_pubsub.Collections.BTreeSet
use rust_libp2p_pubsub.Collections.BTreeSet.{BTreeSet, IsAscending}
use rust_libp2p_pubsub.Collections.HashMap
use rust_libp2p_pubsub.Collections.HashMap.{HashMap, or_default}

abbrev pub SetMap {ℓ} : Type ℓ → Type ℓ → Type ℓ
SetMap K A = HashMap K (BTreeSet A)

module _ {ℓ} {A : Type ℓ} ⦃a : Ord A⦄ where
  -- Whether the set under a key holds an element; without the key it does not.
  abbrev holds : A → Option (BTreeSet A) → Bool
  holds x none = false
  holds x (some set) = BTreeSet.contains x set

  -- A set under a key is ascending and not empty.
  abbrev Tidy : Option (BTreeSet A) → Type 0
  Tidy none = Unit
  Tidy (some set) = (is_empty set ≡ false) × IsAscending set

module _ {ℓ} {K A : Type ℓ} ⦃o : Ord K⦄ ⦃a : Ord A⦄ where
  -- `map.entry(key).or_default().insert(element)`
  unfoldable pub add_element : K → A → SetMap K A → SetMap K A
  add_element k x m = HashMap.insert k (BTreeSet.insert x (or_default (HashMap.get k m) [])) m

  -- `if let Some(set) = map.get_mut(key) { set.remove(element); }`
  unfoldable pub remove_element : K → A → SetMap K A → SetMap K A
  remove_element k x m = elim (HashMap.get k m) [
    | none ↦ m
    | some set ↦ HashMap.insert k (BTreeSet.remove x set) m
  ]

  -- `if matches!(map.get(key), Some(set) if set.is_empty()) { map.remove(key); }`
  unfoldable pub remove_if_empty : K → SetMap K A → SetMap K A
  remove_if_empty k m = elim (HashMap.get k m) [
    | none ↦ m
    | some set ↦ if is_empty set then HashMap.remove k m else m
  ]

  abbrev pub has : K → A → SetMap K A → Bool
  has k x m = holds x (HashMap.get k m)

  abbrev pub IsTidy : SetMap K A → Type ℓ
  IsTidy m = (k : K) → Tidy (HashMap.get k m)

  pub has-add_element :
      (j k : K) (y x : A) (m : SetMap K A)
      → has j y (add_element k x m) ≡ (same j k && same y x || has j y m)
  unfolding add_element BTreeSet.contains
  has-add_element j k y x m = ground (
    arith,
    HashMap.get-insert j k (BTreeSet.insert x (or_default (HashMap.get k m) [])) m,
    BTreeSet.contains-insert y x (or_default (HashMap.get k m) []),
  )

  pub has-remove_element :
      (j k : K) (y x : A) (m : SetMap K A)
      → has j y (remove_element k x m) ≡ (not (same j k && same y x) && has j y m)
  unfolding remove_element
  has-remove_element j k y x m = elim (Option-cases (HashMap.get k m)) [
    | inl e ↦ rw (e, remove_element) (ground (arith, e))
    | inr (s, e) ↦
        rw (e, remove_element)
          (ground
            (arith, HashMap.get-insert j k (BTreeSet.remove x s) m, BTreeSet.contains-remove y x s))
  ]

  pub has-remove_if_empty :
      (j k : K) (y : A) (m : SetMap K A) → has j y (remove_if_empty k m) ≡ has j y m
  unfolding remove_if_empty BTreeSet.contains
  has-remove_if_empty j k y m = ground (arith, HashMap.get-remove j k m)

  pub add_element-IsTidy : (k : K) (x : A) (m : SetMap K A) → IsTidy m → IsTidy (add_element k x m)
  unfolding add_element
  add_element-IsTidy k x m h j = ground (
    arith,
    h j,
    h k,
    HashMap.get-insert j k (BTreeSet.insert x (or_default (HashMap.get k m) [])) m,
    BTreeSet.is_empty-insert x (or_default (HashMap.get k m) []),
    BTreeSet.insert-IsAscending x (or_default (HashMap.get k m) []),
  )

  -- After an element is removed, only the set under its key can be empty; then the key goes too.
  pub remove-IsTidy :
      (k : K) (x : A) (m : SetMap K A)
      → IsTidy m
      → IsTidy (remove_if_empty k (remove_element k x m))
  unfolding remove_element remove_if_empty
  remove-IsTidy k x m h j = elim (Option-cases (HashMap.get k m)) [
    | inl e ↦ rw (e, remove_element) (rw (e, remove_if_empty) (h j))
    | inr (s, e) ↦
        rw (e, remove_element)
          (ground (
            arith,
            h j,
            h k,
            HashMap.get-insert j k (BTreeSet.remove x s) m,
            HashMap.get-insert k k (BTreeSet.remove x s) m,
            HashMap.get-remove j k (HashMap.insert k (BTreeSet.remove x s) m),
            BTreeSet.remove-IsAscending x s,
          ))
  ]

  get-empty-has : (k : K) (x : A) (m : SetMap K A) → HashMap.get k m ≡ none → has k x m ≡ false
  get-empty-has k x m e = rw e
