-- ===== src/Heartbeat.antt =====
-- common/src/heartbeat.rs: a stream of numbered beats. The ticker (`futures_ticker`) is an argument;
-- the time of a poll stands for the task's context.
mod Examples
pub mod Numbering
use rust_libp2p_pubsub.Prelude.{ℕ, ◌+◌, ◌%◌, ◌^◌, Option, none, some}
use rust_libp2p_pubsub.Handler.Types.{Poll, ready, pending}

pub record Ticker : Type 1 where
  pub State : Type 0
  pub new_with_next : ℕ → ℕ → State
  pub poll_next : State → ℕ → State × Poll (Option (Unit {0}))
  -- The least number of beats that are left, and the greatest, if there is one.
  pub size_hint : State → ℕ × Option ℕ

pub record Heartbeat (S : Type 0) : Type 0 where
  pub ticker : S
  pub ticks : ℕ

module _ (T : Ticker) where
  abbrev pub new : ℕ → ℕ → Heartbeat T.State
  new interval delay = record { ticker = T.new_with_next interval delay; ticks = 0 }

  -- The match on what the ticker gives; `wrapping_add`.
  unfoldable pub on_tick :
      Heartbeat T.State → Poll (Option (Unit {0})) → Heartbeat T.State × Poll (Option ℕ)
  on_tick h pending = (h, pending)
  on_tick h (ready (some _)) =
      let ticks = (h.ticks + 1) % 2 ^ 64 in (record h { ticks = ticks }, ready (some ticks))
  on_tick h (ready none) = (h, ready none)

  unfoldable pub poll_next : Heartbeat T.State → ℕ → Heartbeat T.State × Poll (Option ℕ)
  unfolding on_tick
  poll_next h now =
      let (ticker, ticked) = T.poll_next h.ticker now in
      on_tick (record h { ticker = ticker }) ticked

  abbrev size_hint : Heartbeat T.State → ℕ × Option ℕ
  size_hint h = T.size_hint h.ticker
