-- ===== src/SeqNo.antt =====
-- floodsub/src/seqno.rs: the generators of message sequence numbers.
mod Examples
use rust_libp2p_pubsub.Prelude.{
  ℕ, zero, suc, ◌+◌, ◌%◌, ◌^◌, ◌<◌, ◌≤◌, ◌≡◌, refl, Bool, true, false, Option, none, some, List, [],
  ◌∷◌, ltb, if◌then◌else◌, arith, All, length,
}
use rust_libp2p_pubsub.Prelude.Outcome.{Outcome, returned, panicked, ◌>>=◌}

-- The last number that was given out.
pub record LinearSequenceNumber : Type 0 where
  pub value : ℕ  -- u64

-- `unix_timestamp as u64`, of the nanoseconds that the clock shows
unfoldable pub new : ℕ → LinearSequenceNumber
new unix_nanos = record { value = unix_nanos % 2 ^ 64 }

-- `checked_add(1).expect(…)`
unfoldable pub next_linear : LinearSequenceNumber → Outcome (LinearSequenceNumber × Option ℕ)
next_linear g =
    if ltb (g.value + 1) (2 ^ 64)
    then returned (record { value = g.value + 1 }, some (g.value + 1))
    else panicked

-- The implementations of the trait.
pub data MessageSeqNumberGenerator : Type 0 where
  linear : LinearSequenceNumber → MessageSeqNumberGenerator
  random no_sequence_number : MessageSeqNumberGenerator

abbrev as_generator :
    Outcome (LinearSequenceNumber × Option ℕ) → Outcome (MessageSeqNumberGenerator × Option ℕ)
as_generator (returned (g, n)) = returned (linear g, n)
as_generator panicked = panicked

-- `next`; the number that a random generator draws is an argument.
unfoldable pub next : MessageSeqNumberGenerator → ℕ → Outcome (MessageSeqNumberGenerator × Option ℕ)
unfolding next_linear
next (linear g) drawn = as_generator (next_linear g)
next random drawn = returned (random, some (drawn % 2 ^ 64))
next no_sequence_number drawn = returned (no_sequence_number, none)

-- The numbers of a run of calls; a panic ends it.
unfoldable pub take_numbers : ℕ → LinearSequenceNumber → Outcome (List (Option ℕ))
take_numbers zero g = returned []
take_numbers (suc k) g = do (g', n) ← next_linear g; ns ← take_numbers k g'; returned (n ∷ ns)

-- `first`, `first + 1` and so on.
abbrev consecutive : ℕ → ℕ → List (Option ℕ)
consecutive first zero = []
consecutive first (suc k) = some first ∷ consecutive (first + 1) k

-- A linear generator gives consecutive numbers as long as they fit 64 bits.
take_numbers-consecutive :
    (k : ℕ) (g : LinearSequenceNumber)
    → g.value + k < 2 ^ 64
    → take_numbers k g ≡ returned (consecutive (g.value + 1) k)
unfolding take_numbers next_linear
take_numbers-consecutive zero g h = refl
take_numbers-consecutive (suc k) g h =
    ground (arith, take_numbers-consecutive k (record { value = g.value + 1 }))

-- A run of calls in which a linear generator passes 64 bits panics.
take_numbers-panicked :
    (k : ℕ) (g : LinearSequenceNumber)
    → g.value < 2 ^ 64
    → 2 ^ 64 ≤ g.value + k
    → take_numbers k g ≡ panicked
unfolding take_numbers next_linear
take_numbers-panicked zero g h e = absurd (omega arith)
take_numbers-panicked (suc k) g h e =
    ground (arith, take_numbers-panicked k (record { value = g.value + 1 }))

-- A linear generator whose number fits 64 bits gives consecutive numbers as long as they fit them,
-- and a run of calls that passes 64 bits panics.
pub take_numbers_lem :
    (k : ℕ) (g : LinearSequenceNumber)
    → g.value < 2 ^ 64
    → take_numbers k g
      ≡ (if ltb (g.value + k) (2 ^ 64) then returned (consecutive (g.value + 1) k) else panicked)
take_numbers_lem k g h = ground (arith, take_numbers-consecutive k g, take_numbers-panicked k g)
