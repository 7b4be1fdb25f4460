-- ===== src/MessageId/Decimal.antt =====
-- `u64::to_string`, which floodsub/src/message_id.rs calls: the decimal digits of a number.
use rust_libp2p_pubsub.Prelude.{
  ℕ, zero, suc, ◌+◌, ◌-◌, ◌*◌, ◌/◌, ◌%◌, ◌^◌, ◌<◌, ◌≡◌, refl, sym, ap, ◌∙◌, [], ◌∷◌, ◌++◌, ltb,
  arith, Bool-cases, inl, inr, true, false,
}
use rust_libp2p_pubsub.Prelude.Order.{Bytes}

-- The digits of a number of at most `suc k` digits.
unfoldable pub digits : ℕ → ℕ → Bytes
digits zero n = (b'0' + n % 10) ∷ []
digits (suc k) n = elim (ltb n 10) [
  | true ↦ (b'0' + n) ∷ []
  | false ↦ digits k (n / 10) ++ (b'0' + n % 10) ∷ []
]

-- Twenty digits are enough for 64 bits.
unfoldable pub to_string : ℕ → Bytes
unfolding digits
to_string n = digits 19 n

unfoldable pub read : ℕ → Bytes → ℕ
read acc [] = acc
read acc (d ∷ ds) = read (acc * 10 + (d - b'0')) ds

read-append :
    (acc : ℕ) (ds : Bytes) (d : ℕ) → read acc (ds ++ d ∷ []) ≡ read acc ds * 10 + (d - b'0')
unfolding read
read-append acc [] d = refl
read-append acc (e ∷ ds) d = read-append (acc * 10 + (e - b'0')) ds d

abbrev limit : ℕ → ℕ
limit zero = 10
limit (suc k) = 10 * limit k

read-digits : (k n : ℕ) → n < limit k → read 0 (digits k n) ≡ n
unfolding digits read
read-digits zero n h = omega arith
read-digits (suc k) n h = elim (Bool-cases (ltb n 10)) [
  | inl small ↦ rw (small, digits, read) (omega arith)
  | inr large ↦
      rw (large, digits, read-append 0 (digits k (n / 10)) (b'0' + n % 10))
        (omega (arith, read-digits k (n / 10) (omega arith)))
]

-- The digits of a number of 64 bits give it back.
pub read-to_string : (n : ℕ) → n < 2 ^ 64 → read 0 (to_string n) ≡ n
unfolding to_string
read-to_string n h = read-digits 19 n (omega arith)

pub to_string-injective : (m n : ℕ) → m < 2 ^ 64 → n < 2 ^ 64 → to_string m ≡ to_string n → m ≡ n
to_string-injective m n h k e = sym (read-to_string m h) ∙ ap (read 0) e ∙ read-to_string n k
