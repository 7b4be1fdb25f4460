-- ===== src/Collections/Vec.antt =====
-- `std::vec::Vec` of comparable elements: `contains`, `push` and `retain(|x| x != element)`.
use rust_libp2p_pubsub.Prelude.{
  ◌≡◌, refl, Bool, true, false, not, ◌&&◌, ◌||◌, List, [], ◌∷◌, ◌++◌, arith, length, ◌+◌,
  if◌then◌else◌,
}
use rust_libp2p_pubsub.Prelude.Order.{Ord, same}

module _ {ℓ} {A : Type ℓ} where
  abbrev pub push : List A → A → List A
  push xs a = xs ++ a ∷ []

  pub push-ne-nil : (xs : List A) (a : A) → ¬ (push xs a ≡ [])
  push-ne-nil [] a e = cc
  push-ne-nil (x ∷ xs) a e = cc

module _ {ℓ} {A : Type ℓ} ⦃o : Ord A⦄ where
  unfoldable pub contains : A → List A → Bool
  contains a [] = false
  contains a (x ∷ xs) = same a x || contains a xs

  unfoldable pub retain_ne : A → List A → List A
  retain_ne a [] = []
  retain_ne a (x ∷ xs) = if same a x then retain_ne a xs else x ∷ retain_ne a xs

  -- `if !xs.contains(&a) { xs.push(a) }`
  abbrev pub push_once : List A → A → List A
  push_once xs a = if contains a xs then xs else push xs a

  abbrev pub IsNodup : List A → Type 0
  IsNodup [] = Unit {0}
  IsNodup (x ∷ xs) = (contains x xs ≡ false) × IsNodup xs

  pub contains-push : (b a : A) (xs : List A) → contains b (push xs a) ≡ (same b a || contains b xs)
  unfolding contains
  contains-push b a [] = refl
  contains-push b a (x ∷ xs) = ground (arith, contains-push b a xs)

  pub contains-retain_ne :
      (b a : A) (xs : List A) → contains b (retain_ne a xs) ≡ (not (same b a) && contains b xs)
  unfolding contains retain_ne
  contains-retain_ne b a [] = ground arith
  contains-retain_ne b a (x ∷ xs) = ground (arith, contains-retain_ne b a xs)

  pub contains-push_once :
      (b a : A) (xs : List A) → contains b (push_once xs a) ≡ (same b a || contains b xs)
  contains-push_once b a xs = ground (arith, contains-push b a xs)

  pub push-IsNodup :
      (a : A) (xs : List A) → contains a xs ≡ false → IsNodup xs → IsNodup (push xs a)
  unfolding contains
  push-IsNodup a [] h n = (refl, tt)
  push-IsNodup a (x ∷ xs) h n = ground (arith, push-IsNodup a xs, contains-push x a xs)

  pub push_once-IsNodup : (a : A) (xs : List A) → IsNodup xs → IsNodup (push_once xs a)
  push_once-IsNodup a xs n = ground (arith, push-IsNodup a xs)

  pub retain_ne-IsNodup : (a : A) (xs : List A) → IsNodup xs → IsNodup (retain_ne a xs)
  unfolding retain_ne
  retain_ne-IsNodup a [] n = tt
  retain_ne-IsNodup a (x ∷ xs) n = ground (arith, retain_ne-IsNodup a xs, contains-retain_ne x a xs)

  retain_ne_absent : (a : A) (xs : List A) → contains a xs ≡ false → retain_ne a xs ≡ xs
  unfolding contains retain_ne
  retain_ne_absent a [] h = refl
  retain_ne_absent a (x ∷ xs) h = ground (arith, retain_ne_absent a xs)

  -- Of distinct elements one is removed if it is there.
  pub length-retain_ne :
      (a : A) (xs : List A)
      → IsNodup xs
      → contains a xs ≡ true
      → length (retain_ne a xs) + 1 ≡ length xs
  unfolding contains retain_ne
  length-retain_ne a [] n h = absurd (cc)
  length-retain_ne a (x ∷ xs) n h = ground (arith, length-retain_ne a xs, retain_ne_absent a xs)

  pub push_once-ne-nil : (xs : List A) (a : A) → ¬ (push_once xs a ≡ [])
  unfolding contains
  push_once-ne-nil [] a e = cc
  push_once-ne-nil (x ∷ xs) a e = ground (arith, push-ne-nil (x ∷ xs) a)
