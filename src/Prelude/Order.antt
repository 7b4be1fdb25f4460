-- ===== src/Prelude/Order.antt =====
-- The orders of keys: `Ord` of the standard library, as far as an ordered set relies on it.
use Prim.Native.Nat.{ℕ}
use mathlib.Core.Path.{◌≡◌, refl}
use mathlib.Core.Logic.{◌≢◌, ite}
use mathlib.Core.Bool.{Bool, true, false}
use mathlib.Core.List.{List, [], ◌∷◌}
use native.Mathlib.Omega.{arith}
use native.Mathlib.Decide.{ℕ_discrete}
use rust_libp2p_pubsub.Prelude.Tests.{ltb, ltb_trans, ltb_irrefl}

pub record Ord {ℓ} (K : Type ℓ) : Type ℓ where
  pub dec : Discrete K
  pub less : K → K → Bool
  pub irrefl : (a : K) → less a a ≡ false
  pub trans : (a b c : K) → less a b ≡ true → less b c ≡ true → less a c ≡ true
  pub total : (a b : K) → a ≢ b → less a b ≡ false → less b a ≡ true

-- Whether two keys are the same.
abbrev pub same {ℓ} : {K : Type ℓ} ⦃o : Ord K⦄ → K → K → Bool
same ⦃o⦄ a b = elim (o.dec a b) [ yes _ ↦ true | no _ ↦ false ]

pub ltb-total : (a b : ℕ) → a ≢ b → ltb a b ≡ false → ltb b a ≡ true
ltb-total a b h k = ground arith

instance abbrev pub ℕ-ord : Ord ℕ
ℕ-ord = record {
  dec = ℕ_discrete;
  less = ltb;
  irrefl = ltb_irrefl;
  trans = ltb_trans;
  total = ltb-total;
}

-- `Vec<u8>` and the bytes of a `String`
abbrev pub Bytes : Type 0
Bytes = List ℕ

unfoldable pub Bytes-discrete : Discrete Bytes
Bytes-discrete [] [] = yes refl
Bytes-discrete [] (b ∷ bs) = no (λ e. cc)
Bytes-discrete (a ∷ s) [] = no (λ e. cc)
Bytes-discrete (a ∷ s) (b ∷ bs) = elim (ℕ_discrete a b) [
  | no p ↦ no (λ e. p (cc))
  | yes p ↦ elim (Bytes-discrete s bs) [ yes q ↦ yes (λ i. p i ∷ q i) | no q ↦ no (λ e. q (cc)) ]
]

unfoldable pub less_bytes : Bytes → Bytes → Bool
less_bytes [] [] = false
less_bytes [] (b ∷ bs) = true
less_bytes (a ∷ as') [] = false
less_bytes (a ∷ as') (b ∷ bs) = ite (ℕ_discrete a b) (less_bytes as' bs) (ltb a b)

pub less_bytes_irrefl : (a : Bytes) → less_bytes a a ≡ false
unfolding less_bytes
less_bytes_irrefl [] = refl
less_bytes_irrefl (a ∷ s) = ground (arith, less_bytes_irrefl s)

pub less_bytes_trans :
    (a b c : Bytes) → less_bytes a b ≡ true → less_bytes b c ≡ true → less_bytes a c ≡ true
unfolding less_bytes
less_bytes_trans [] [] c h k = cc
less_bytes_trans [] (b ∷ bs) [] h k = cc
less_bytes_trans [] (b ∷ bs) (c ∷ cs) h k = refl
less_bytes_trans (a ∷ s) [] c h k = cc
less_bytes_trans (a ∷ s) (b ∷ bs) [] h k = cc
less_bytes_trans (a ∷ s) (b ∷ bs) (c ∷ cs) h k = ground (arith, less_bytes_trans s bs cs)

pub less_bytes-total : (a b : Bytes) → a ≢ b → less_bytes a b ≡ false → less_bytes b a ≡ true
unfolding less_bytes
less_bytes-total [] [] h k = absurd (h refl)
less_bytes-total [] (b ∷ bs) h k = cc
less_bytes-total (a ∷ s) [] h k = refl
less_bytes-total (a ∷ s) (b ∷ bs) h k = elim (ℕ_discrete a b) [
  | yes p ↦ ground (arith, less_bytes-total s bs (λ e. h (cc)))
  | no p ↦ ground arith
]

instance abbrev pub Bytes-ord : Ord Bytes
Bytes-ord = record {
  dec = Bytes-discrete;
  less = less_bytes;
  irrefl = less_bytes_irrefl;
  trans = less_bytes_trans;
  total = less_bytes-total;
}
