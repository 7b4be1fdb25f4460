-- ===== src/Handler/Soundness.antt =====
-- The calls of a connection handler of floodsub/src/handler.rs, from a sound state.
use rust_libp2p_pubsub.Prelude.{
  ℕ, ◌+◌, ◌≡◌, refl, Bool, true, false, not, leb, if◌then◌else◌, arith,
}
use rust_libp2p_pubsub.Prelude.Outcome.{Outcome, returned, panicked, ◌>>=◌}
use rust_libp2p_pubsub.Handler.Types.{
  Command, Framed, HandlerEvent, ConnectionEvent, fully_negotiated_inbound,
  fully_negotiated_outbound, denied_inbound, dial_upgrade_error, negotiation_failed, EventKinds,
}
use rust_libp2p_pubsub.Handler.Disabled
use rust_libp2p_pubsub.Handler.Simple
use rust_libp2p_pubsub.Handler.Simple.{SimpleHandler, is_nothing}
use rust_libp2p_pubsub.Handler.Simple.Safety.{IsSound, poll-IsSound, on_behaviour_event-IsSound}
use rust_libp2p_pubsub.Handler.Simple.Loop.{Ended, broken, emitted, EndKeeps}
use rust_libp2p_pubsub.Handler.{
  Handler, HandlerState, enabled, disabled, is_enabled_state, poll, poll_state, on_behaviour_event,
  behaviour_event_state, on_connection_event, set_inner, put_back, connection_event_state,
  after_inbound, after_negotiation, count_inbound, count_outbound, max_attempts,
}

abbrev is_establishing : {S : Type 0} → HandlerState S → Bool
is_establishing (enabled s) = s.outbound_substream_establishing
is_establishing (disabled d) = true

-- Whether libp2p may report the event to a handler in that state.
abbrev pub may_report : {S K : Type 0} → HandlerState S → ConnectionEvent K → Bool
may_report s (fully_negotiated_outbound k) = is_establishing s
may_report s denied_inbound = not (is_enabled_state s)
may_report s _ = true

abbrev IsSoundState : {S : Type 0} → HandlerState S → Type 0
IsSoundState (enabled s) = IsSound s
IsSoundState (disabled d) = Unit

abbrev pub IsSoundHandler : {S : Type 0} → Handler S → Type 0
IsSoundHandler h = IsSoundState h.inner

-- An event is handled without a panic, and the handler is sound again.
abbrev pub ReturnsSound : {S : Type 0} → Outcome (Handler S) → Type 0
ReturnsSound (returned h) = IsSoundHandler h
ReturnsSound panicked = ⊥

abbrev ReturnsSimple : {S : Type 0} → Outcome (SimpleHandler S) → Type 0
ReturnsSimple (returned s) = IsSound s
ReturnsSimple panicked = ⊥

module _ (F : Framed) (kinds : EventKinds F.Socket) where
  simple_event-IsSound :
      (s : SimpleHandler F.Substream) (e : ConnectionEvent F.Socket)
      → IsSound s
      → may_report (enabled s) e ≡ true
      → ReturnsSimple (Simple.on_connection_event F kinds s e)
  unfolding Simple.on_connection_event
  simple_event-IsSound s (fully_negotiated_inbound k) v m =
      ground (arith, kinds.inbound_not_outbound k)
  simple_event-IsSound s (fully_negotiated_outbound k) v m =
      ground (arith, kinds.outbound_negotiated k)
  simple_event-IsSound s denied_inbound v m = absurd (cc)
  simple_event-IsSound s e v m = ground arith

  pub poll-IsSoundHandler :
      (h : Handler F.Substream) (now : ℕ)
      → IsSoundHandler h
      → EndKeeps IsSoundHandler (poll F h now)
  unfolding poll
  poll-IsSoundHandler h now v = by_state h.inner v
    where
      by_simple :
          (r : Ended (SimpleHandler F.Substream) HandlerEvent)
          → EndKeeps IsSound r
          → EndKeeps IsSoundHandler (put_back F h r)
      by_simple (broken s) k = k
      by_simple (emitted s e) k = k
      by_simple Ended.panicked k = k
      by_simple Ended.out_of_fuel k = k

      by_state :
          (s : HandlerState F.Substream)
          → IsSoundState s
          → EndKeeps IsSoundHandler (poll_state F h s now)
      by_state (enabled s) k = by_simple (Simple.poll F s now) (poll-IsSound F now s k)
      by_state (disabled d) k = unfold Disabled.poll in ground arith

  pub on_behaviour_event-IsSoundHandler :
      (h : Handler F.Substream) (c : Command)
      → IsSoundHandler h
      → IsSoundHandler (on_behaviour_event F h c)
  unfolding on_behaviour_event
  on_behaviour_event-IsSoundHandler h c v = by_state h.inner v
    where
      by_state :
          (s : HandlerState F.Substream)
          → IsSoundState s
          → IsSoundState (behaviour_event_state F s c)
      by_state (enabled s) k = on_behaviour_event-IsSound F s c k
      by_state (disabled d) k = tt

  deliver-ReturnsSound :
      (h : Handler F.Substream) (s : HandlerState F.Substream) (e : ConnectionEvent F.Socket)
      → IsSoundState s
      → may_report s e ≡ true
      → ReturnsSound (connection_event_state F kinds h s e)
  unfolding connection_event_state
  deliver-ReturnsSound h (enabled s) e v m =
      returns (Simple.on_connection_event F kinds s e) (simple_event-IsSound s e v m)
    where
      returns :
          (o : Outcome (SimpleHandler F.Substream))
          → ReturnsSimple o
          → ReturnsSound (o >>= λ s'. returned (set_inner h (enabled s')))
      returns (returned s') k = k
      returns panicked k = k
  deliver-ReturnsSound h (disabled d) e v m = tt

  if-ReturnsSound :
      (b : Bool) (x y : Outcome (Handler F.Substream))
      → ReturnsSound x
      → ReturnsSound y
      → ReturnsSound (if b then x else y)
  if-ReturnsSound true x y p q = p
  if-ReturnsSound false x y p q = q

  after_negotiation_sound :
      (h : Handler F.Substream) (e : ConnectionEvent F.Socket)
      → IsSoundHandler h
      → may_report h.inner e ≡ true
      → IsSoundHandler (after_negotiation F kinds h e)
        × (may_report (after_negotiation F kinds h e).inner e ≡ true)
  after_negotiation_sound h (dial_upgrade_error negotiation_failed) v m = (tt, refl)
  after_negotiation_sound h (dial_upgrade_error e) v m = (v, m)
  after_negotiation_sound h e v m = (v, m)

  delivered :
      (h : Handler F.Substream) (e : ConnectionEvent F.Socket)
      → IsSoundHandler h
      → may_report h.inner e ≡ true
      → ReturnsSound (
          connection_event_state F kinds
            (after_negotiation F kinds h e)
            (after_negotiation F kinds h e).inner
            e)
  delivered h e v m =
      let (v', m') = after_negotiation_sound h e v m in
      deliver-ReturnsSound (after_negotiation F kinds h e) (after_negotiation F kinds h e).inner e
        v' m'

  after_inbound-ReturnsSound :
      (h : Handler F.Substream) (e : ConnectionEvent F.Socket)
      → IsSoundHandler h
      → may_report h.inner e ≡ true
      → ReturnsSound (after_inbound F kinds h e)
  after_inbound-ReturnsSound h e v m =
      unfold after_inbound in
      if-ReturnsSound (kinds.is_outbound e) _ _
        (if-ReturnsSound (leb max_attempts (h.outbound_substream_attempts + 1)) _ _ tt
          (delivered (count_outbound F kinds h) e v m))
        (delivered h e v m)

  pub on_connection_event-ReturnsSound :
      (h : Handler F.Substream) (e : ConnectionEvent F.Socket)
      → IsSoundHandler h
      → may_report h.inner e ≡ true
      → ReturnsSound (on_connection_event F kinds h e)
  on_connection_event-ReturnsSound h e v m =
      unfold on_connection_event in
      if-ReturnsSound (kinds.is_inbound e) _ _
        (if-ReturnsSound (leb max_attempts (h.inbound_substream_attempts + 1)) _ _ tt
          (after_inbound-ReturnsSound (count_inbound F kinds h) e v m))
        (after_inbound-ReturnsSound h e v m)
