-- ===== src/Heartbeat/Examples.antt =====
-- Runs of common/src/heartbeat.rs, with a ticker whose state is the time of its next beat.
use rust_libp2p_pubsub.Prelude.{ℕ, ◌+◌, ◌≡◌, refl, leb, some, none, [], ◌∷◌, if◌then◌else◌}
use rust_libp2p_pubsub.Handler.Types.{ready, pending}
use rust_libp2p_pubsub.Heartbeat.{Ticker, new, poll_next}
use rust_libp2p_pubsub.Heartbeat.Numbering.{polls, ticks, numbered, polls-numbered}

-- A beat every ten seconds.
abbrev every_ten : Ticker
every_ten = record {
  State = ℕ;
  new_with_next = λ interval delay. delay;
  poll_next = λ due now. if leb due now then (due + 10, ready (some tt)) else (due, pending);
  size_hint = λ due. (0, none);
}

polls_example :
    polls every_ten (new every_ten 10 0) (0 ∷ 5 ∷ 12 ∷ [])
    ≡ ready (some 1) ∷ pending ∷ ready (some 2) ∷ []
unfolding polls poll_next
polls_example = refl

polls-numbered_example :
    polls every_ten (new every_ten 10 0) (0 ∷ 5 ∷ 12 ∷ [])
    ≡ numbered 0 (ticks every_ten 0 (0 ∷ 5 ∷ 12 ∷ []))
polls-numbered_example = polls-numbered every_ten 10 0 (0 ∷ 5 ∷ 12 ∷ [])
