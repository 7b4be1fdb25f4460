-- ===== src/Handler/Simple/Safety.antt =====
-- `SimpleHandler` of floodsub/src/handler.rs never reaches its panics, and its loops end.
use rust_libp2p_pubsub.Prelude.{
  ℕ, ◌+◌, ◌*◌, ◌≡◌, refl, Bool, true, false, Option, none, some, List, [], ◌∷◌, length, arith,
}
use rust_libp2p_pubsub.Handler.Types.{
  Command, Framed, InboundSubstreamState, waiting_input, closing, OutboundSubstreamState,
  pending_send, pending_flush, HandlerEvent,
}
use rust_libp2p_pubsub.Handler.Simple.Loop.{Ended, run_loop, TurnKeeps, EndKeeps, run_loop-keeps}
use rust_libp2p_pubsub.Handler.Simple.{
  SimpleHandler, new, pop, is_nothing, inbound_turn, outbound_turn, outbound_fuel, poll_loops, poll,
  on_behaviour_event,
}

module _ {S : Type 0} where
  abbrev is_poisoned_inbound : Option (InboundSubstreamState S) → Bool
  is_poisoned_inbound (some InboundSubstreamState.poisoned) = true
  is_poisoned_inbound _ = false

  abbrev is_poisoned_outbound : Option (OutboundSubstreamState S) → Bool
  is_poisoned_outbound (some OutboundSubstreamState.poisoned) = true
  is_poisoned_outbound _ = false

  -- Between two calls no substream is poisoned, and while an outbound one is being established
  -- there is none.
  pub record IsSound (h : SimpleHandler S) : Type 0 where
    pub inbound_live : is_poisoned_inbound h.inbound_substream ≡ false
    pub outbound_live : is_poisoned_outbound h.outbound_substream ≡ false
    pub single : h.outbound_substream_establishing ≡ true → is_nothing h.outbound_substream ≡ true

  abbrev inbound_weight : Option (InboundSubstreamState S) → ℕ
  inbound_weight (some (waiting_input s)) = 2
  inbound_weight (some (closing s)) = 1
  inbound_weight _ = 0

  abbrev outbound_weight : Option (OutboundSubstreamState S) → ℕ
  outbound_weight (some (pending_send s message)) = 2
  outbound_weight (some (pending_flush s)) = 1
  outbound_weight _ = 0

  abbrev inbound_measure : SimpleHandler S → ℕ
  inbound_measure h = inbound_weight h.inbound_substream

  abbrev outbound_measure : SimpleHandler S → ℕ
  outbound_measure h = 3 * length h.send_queue + outbound_weight h.outbound_substream

abbrev popped_length {ℓ} : {A : Type ℓ} → Option (A × List A) → ℕ
popped_length none = 0
popped_length (some (x, xs)) = length xs + 1

pop-length {ℓ} : {A : Type ℓ} (xs : List A) → popped_length (pop xs) ≡ length xs
unfolding pop
pop-length [] = refl
pop-length (x ∷ xs) = ground (arith, pop-length xs)

pub new-IsSound :
    {S : Type 0} (protocol : List ℕ) (size timeout now : ℕ)
    → IsSound {S = S} (new protocol size timeout now)
unfolding new
new-IsSound protocol size timeout now = record {
  inbound_live = refl;
  outbound_live = refl;
  single = λ e. cc;
}

module _ (F : Framed) where
  inbound_turn-keeps :
      (now : ℕ) (h : SimpleHandler F.Substream)
      → IsSound h
      → TurnKeeps IsSound inbound_measure h (inbound_turn F now h)
  unfolding inbound_turn
  inbound_turn-keeps now h v = ground arith

  outbound_turn-keeps :
      (now : ℕ) (h : SimpleHandler F.Substream)
      → IsSound h
      → TurnKeeps IsSound outbound_measure h (outbound_turn F now h)
  unfolding outbound_turn
  outbound_turn-keeps now h v = ground (arith, pop-length h.send_queue)

  poll_loops-keeps :
      (now : ℕ) (h : SimpleHandler F.Substream) → IsSound h → EndKeeps IsSound (poll_loops F h now)
  unfolding poll_loops
  poll_loops-keeps now h v = after (run_loop (inbound_turn F now) 3 h) (
      run_loop-keeps IsSound inbound_measure (inbound_turn F now) (inbound_turn-keeps now) 3 h
        (ground arith) v)
    where
      after :
          (e : Ended (SimpleHandler F.Substream) HandlerEvent)
          → EndKeeps IsSound e
          → EndKeeps IsSound (elim e [
            | Ended.broken h' ↦ run_loop (outbound_turn F now) (outbound_fuel F h') h'
            | Ended.emitted h' event ↦ Ended.emitted h' event
            | Ended.panicked ↦ Ended.panicked
            | Ended.out_of_fuel ↦ Ended.out_of_fuel
          ])
      after (Ended.broken h') k =
          run_loop-keeps IsSound outbound_measure (outbound_turn F now) (outbound_turn-keeps now)
            (outbound_fuel F h') h' (ground arith) k
      after (Ended.emitted h' event) k = k
      after Ended.panicked k = k
      after Ended.out_of_fuel k = k

  -- `poll` ends, whatever the streams answer: with an event or pending, never in a panic, and the
  -- handler is sound again.
  pub poll-IsSound :
      (now : ℕ) (h : SimpleHandler F.Substream) → IsSound h → EndKeeps IsSound (poll F h now)
  unfolding poll
  poll-IsSound now h v = ground (arith, poll_loops-keeps now h v)

  pub on_behaviour_event-IsSound :
      (h : SimpleHandler F.Substream) (c : Command) → IsSound h → IsSound (on_behaviour_event F h c)
  unfolding on_behaviour_event
  on_behaviour_event-IsSound h c v = ground arith
