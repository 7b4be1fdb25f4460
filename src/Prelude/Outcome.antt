-- ===== src/Prelude/Outcome.antt =====
-- What a call that may panic does.
use mathlib.Core.Bool.{Bool, true, false}
use mathlib.Core.Path.{◌≡◌}

pub data Outcome {ℓ} (A : Type ℓ) : Type ℓ where
  returned : A → Outcome A
  panicked : Outcome A

infixl 5 ◌>>=◌
abbrev pub ◌>>=◌ {ℓ κ} : {A : Type ℓ} {B : Type κ} → Outcome A → (A → Outcome B) → Outcome B
returned a >>= f = f a
panicked >>= f = panicked

-- `debug_assert!` before the rest of a call, in a development build
abbrev pub debug_assert {ℓ} : {A : Type ℓ} → Bool → Outcome A → Outcome A
debug_assert true rest = rest
debug_assert false rest = panicked

pub returned-injective {ℓ} : {A : Type ℓ} {a b : A} → returned a ≡ returned b → a ≡ b
returned-injective e = cc
