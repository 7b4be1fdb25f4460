-- ===== src/Collections/VecMap.antt =====
-- A hash map whose values are vectors, and the idioms by which the connection manager changes one.
use rust_libp2p_pubsub.Prelude.{
  ◌≡◌, false, Option, none, some, List, [], arith, is_empty, if◌then◌else◌,
}
use rust_libp2p_pubsub.Prelude.Order.{Ord, same}
use rust_libp2p_pubsub.Collections.Vec.{push, push_once, retain_ne, push-ne-nil, push_once-ne-nil}
use rust_libp2p_pubsub.Collections.HashMap
use rust_libp2p_pubsub.Collections.HashMap.{HashMap, or_default}

abbrev pub VecMap {ℓ} : Type ℓ → Type ℓ → Type ℓ
VecMap K A = HashMap K (List A)

-- No vector is kept under a key once it is empty.
abbrev pub IsFilled {ℓ} : {A : Type ℓ} → Option (List A) → Type 0
IsFilled none = Unit
IsFilled (some xs) = is_empty xs ≡ false

module _ {ℓ} {K A : Type ℓ} ⦃o : Ord K⦄ where
  abbrev pub values : K → VecMap K A → List A
  values k m = or_default (HashMap.get k m) []

  -- `map.entry(key).or_default().push(x)`
  unfoldable pub add : K → A → VecMap K A → VecMap K A
  add k x m = HashMap.insert k (push (values k m) x) m

  pub values-add :
      (j k : K) (x : A) (m : VecMap K A)
      → values j (add k x m) ≡ (if same j k then push (values k m) x else values j m)
  unfolding add
  values-add j k x m = rw (HashMap.get-insert j k (push (values k m) x) m) (ground arith)

  pub add-IsFilled :
      (k : K) (x : A) (m : VecMap K A)
      → ((j : K) → IsFilled (HashMap.get j m))
      → (j : K) → IsFilled (HashMap.get j (add k x m))
  unfolding add
  add-IsFilled k x m h j =
      ground
        (arith, h j, HashMap.get-insert j k (push (values k m) x) m, push-ne-nil (values k m) x)

module _ {ℓ} {K A : Type ℓ} ⦃o : Ord K⦄ ⦃a : Ord A⦄ where
  -- `let entry = map.entry(key).or_default(); if !entry.contains(&x) { entry.push(x); }`
  unfoldable pub add_once : K → A → VecMap K A → VecMap K A
  add_once k x m = HashMap.insert k (push_once (values k m) x) m

  -- `if let Some(xs) = map.get_mut(key) { xs.retain(|y| y != x); if xs.is_empty() {
  -- map.remove(key); } }`
  unfoldable pub drop_value : K → A → VecMap K A → VecMap K A
  drop_value k x m = elim (HashMap.get k m) [
    | none ↦ m
    | some xs ↦
        if is_empty (retain_ne x xs)
        then HashMap.remove k m
        else HashMap.insert k (retain_ne x xs) m
  ]

  pub values-add_once :
      (j k : K) (x : A) (m : VecMap K A)
      → values j (add_once k x m) ≡ (if same j k then push_once (values k m) x else values j m)
  unfolding add_once
  values-add_once j k x m = rw (HashMap.get-insert j k (push_once (values k m) x) m) (ground arith)

  pub values-drop_value :
      (j k : K) (x : A) (m : VecMap K A)
      → values j (drop_value k x m) ≡ (if same j k then retain_ne x (values k m) else values j m)
  unfolding drop_value retain_ne
  values-drop_value j k x m =
      ground (arith, HashMap.get-insert j k (retain_ne x (values k m)) m, HashMap.get-remove j k m)

  pub add_once-IsFilled :
      (k : K) (x : A) (m : VecMap K A)
      → ((j : K) → IsFilled (HashMap.get j m))
      → (j : K) → IsFilled (HashMap.get j (add_once k x m))
  unfolding add_once
  add_once-IsFilled k x m h j = ground (
    arith,
    h j,
    h k,
    HashMap.get-insert j k (push_once (values k m) x) m,
    push_once-ne-nil (values k m) x,
  )

  pub drop_value-IsFilled :
      (k : K) (x : A) (m : VecMap K A)
      → ((j : K) → IsFilled (HashMap.get j m))
      → (j : K) → IsFilled (HashMap.get j (drop_value k x m))
  unfolding drop_value
  drop_value-IsFilled k x m h j =
      ground
        (arith, h j, HashMap.get-insert j k (retain_ne x (values k m)) m, HashMap.get-remove j k m)
