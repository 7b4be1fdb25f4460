-- ===== src/Heartbeat/Numbering.antt =====
-- The numbers that common/src/heartbeat.rs gives to the beats.
use rust_libp2p_pubsub.Prelude.{
  ℕ, ◌+◌, ◌%◌, ◌^◌, ◌≡◌, refl, ap, ap₂, Option, none, some, List, [], ◌∷◌, arith,
}
use rust_libp2p_pubsub.Handler.Types.{Poll, ready, pending}
use rust_libp2p_pubsub.Heartbeat.{Ticker, Heartbeat, new, poll_next, on_tick}

module _ (T : Ticker) where
  -- What polls of a heartbeat give, and what polls of its ticker alone give.
  unfoldable pub polls : Heartbeat T.State → List ℕ → List (Poll (Option ℕ))
  polls h [] = []
  polls h (now ∷ times) = (poll_next T h now).1 ∷ polls (poll_next T h now).0 times

  unfoldable pub ticks : T.State → List ℕ → List (Poll (Option (Unit {0})))
  ticks s [] = []
  ticks s (now ∷ times) = (T.poll_next s now).1 ∷ ticks (T.poll_next s now).0 times

-- The beats of a ticker, numbered on from a count that has no bound; a number shows 64 bits of it.
unfoldable pub numbered : ℕ → List (Poll (Option (Unit {0}))) → List (Poll (Option ℕ))
numbered k [] = []
numbered k (pending ∷ beats) = pending ∷ numbered k beats
numbered k (ready none ∷ beats) = ready none ∷ numbered k beats
numbered k (ready (some _) ∷ beats) = ready (some ((k + 1) % 2 ^ 64)) ∷ numbered (k + 1) beats

wrapped : (n k : ℕ) → n ≡ k % 2 ^ 64 → (n + 1) % 2 ^ 64 ≡ (k + 1) % 2 ^ 64
wrapped n k e = omega arith

module _ (T : Ticker) where
  polls-from :
      (times : List ℕ) (h : Heartbeat T.State) (k : ℕ)
      → h.ticks ≡ k % 2 ^ 64
      → polls T h times ≡ numbered k (ticks T h.ticker times)
  unfolding polls ticks poll_next numbered on_tick
  polls-from [] h k e = unfold numbered in refl
  polls-from (now ∷ times) h k e = by_tick (T.poll_next h.ticker now).1 (polls-from times)
    where
      by_tick :
          (beat : Poll (Option (Unit {0})))
          → ((h' : Heartbeat T.State) (j : ℕ)
              → h'.ticks ≡ j % 2 ^ 64
              → polls T h' times ≡ numbered j (ticks T h'.ticker times))
          → (let h' : Heartbeat T.State = record h { ticker = (T.poll_next h.ticker now).0 } in
              (on_tick T h' beat).1 ∷ polls T (on_tick T h' beat).0 times)
            ≡ numbered k (beat ∷ ticks T (T.poll_next h.ticker now).0 times)
      by_tick pending rest =
          ap (λ (l : List (Poll (Option ℕ))). pending ∷ l)
            (rest (record h { ticker = (T.poll_next h.ticker now).0 }) k e)
      by_tick (ready none) rest =
          ap (λ (l : List (Poll (Option ℕ))). ready none ∷ l)
            (rest (record h { ticker = (T.poll_next h.ticker now).0 }) k e)
      by_tick (ready (some u)) rest =
          ap₂ (λ (n : ℕ) (l : List (Poll (Option ℕ))). ready (some n) ∷ l) (wrapped h.ticks k e)
            (rest (record { ticker = (T.poll_next h.ticker now).0; ticks = (h.ticks + 1) % 2 ^ 64 })
              (k + 1) (wrapped h.ticks k e))

  -- The polls of a new heartbeat give what those of its ticker give, the beats numbered from 1
  -- upwards, where the count wraps around at 64 bits.
  pub polls-numbered :
      (interval delay : ℕ) (times : List ℕ)
      → polls T (new T interval delay) times
        ≡ numbered 0 (ticks T (T.new_with_next interval delay) times)
  polls-numbered interval delay times = polls-from times (new T interval delay) 0 (omega arith)
