-- ===== src/Frame/Bytes.antt =====
-- `u64::to_be_bytes` and `u64::from_be_bytes`, which floodsub/src/frame/message.rs calls.
use rust_libp2p_pubsub.Prelude.{
  ℕ, zero, suc, ◌+◌, ◌*◌, ◌/◌, ◌%◌, ◌^◌, ◌<◌, ◌≡◌, refl, [], ◌∷◌, ◌++◌, arith, length,
  length-append,
}
use rust_libp2p_pubsub.Prelude.Order.{Bytes}

-- The lowest digits of a number to the base 256, the highest of them first.
unfoldable pub to_be : ℕ → ℕ → Bytes
to_be zero n = []
to_be (suc k) n = to_be k (n / 256) ++ (n % 256) ∷ []

unfoldable pub from_be : ℕ → Bytes → ℕ
from_be acc [] = acc
from_be acc (b ∷ bs) = from_be (acc * 256 + b) bs

abbrev pub to_be_bytes : ℕ → Bytes
to_be_bytes n = to_be 8 n

abbrev pub from_be_bytes : Bytes → ℕ
from_be_bytes bs = from_be 0 bs

pub length-to_be : (k n : ℕ) → length (to_be k n) ≡ k
unfolding to_be
length-to_be zero n = refl
length-to_be (suc k) n =
    omega (arith, length-append (to_be k (n / 256)) ((n % 256) ∷ []), length-to_be k (n / 256))

from_be-append :
    (acc : ℕ) (bs : Bytes) (b : ℕ) → from_be acc (bs ++ b ∷ []) ≡ from_be acc bs * 256 + b
unfolding from_be
from_be-append acc [] b = refl
from_be-append acc (c ∷ bs) b = from_be-append (acc * 256 + c) bs b

abbrev power : ℕ → ℕ
power zero = 1
power (suc k) = 256 * power k

from_be-to_be : (k n : ℕ) → n < power k → from_be 0 (to_be k n) ≡ n
unfolding to_be
from_be-to_be zero n h = unfold from_be in omega arith
from_be-to_be (suc k) n h =
    omega (
      arith,
      from_be-append 0 (to_be k (n / 256)) (n % 256),
      from_be-to_be k (n / 256) (omega arith),
    )

-- Eight bytes hold every 64-bit number.
pub from_be_bytes-to_be_bytes : (n : ℕ) → n < 2 ^ 64 → from_be_bytes (to_be_bytes n) ≡ n
from_be_bytes-to_be_bytes n h = from_be-to_be 8 n h
