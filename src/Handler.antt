-- ===== src/Handler.antt =====
-- floodsub/src/handler.rs: the connection handler. It drives a `SimpleHandler` until that fails too
-- often or the peer does not know the protocol, and a `DisabledHandler` from then on.
pub mod Types
pub mod Disabled
pub mod Simple
pub mod Disabling
pub mod Soundness
pub mod Reachable
mod Examples
use rust_libp2p_pubsub.Prelude.{ℕ, ◌+◌, Bool, true, false, Option, none, some, leb, if◌then◌else◌}
use rust_libp2p_pubsub.Prelude.Order.{Bytes}
use rust_libp2p_pubsub.Prelude.Outcome.{Outcome, returned, panicked, ◌>>=◌}
use Types.{
  Command, DisabledHandlerReason, protocol_unsupported, max_substream_attempts, Poll, ready,
  pending, Framed, HandlerEvent, ConnectionEvent, dial_upgrade_error, negotiation_failed,
  EventKinds, KeepAlive, ListenProtocol,
}
use Disabled.{DisabledHandler, with_reason}
use Simple.{SimpleHandler}
use Simple.Loop.{Ended}

-- `MAX_SUBSTREAM_ATTEMPTS`
abbrev pub max_attempts : ℕ
max_attempts = 5

pub data HandlerState (S : Type 0) : Type 0 where
  enabled : SimpleHandler S → HandlerState S
  disabled : DisabledHandler → HandlerState S

pub record Handler (S : Type 0) : Type 0 where
  pub inbound_substream_attempts : ℕ
  pub outbound_substream_attempts : ℕ
  pub inner : HandlerState S

unfoldable pub new : {S : Type 0} → Bytes → ℕ → ℕ → ℕ → Handler S
new protocol_id max_frame_size idle_timeout now = record {
  inbound_substream_attempts = 0;
  outbound_substream_attempts = 0;
  inner = enabled (Simple.new protocol_id max_frame_size idle_timeout now);
}

abbrev pub disable : {S : Type 0} → Handler S → DisabledHandlerReason → Handler S
disable h reason = record h { inner = disabled (with_reason reason) }

abbrev pub is_enabled_state : {S : Type 0} → HandlerState S → Bool
is_enabled_state (enabled h) = true
is_enabled_state (disabled h) = false

abbrev pub is_enabled : {S : Type 0} → Handler S → Bool
is_enabled h = is_enabled_state h.inner

abbrev listen_protocol_state : {S : Type 0} → HandlerState S → ListenProtocol
listen_protocol_state (enabled h) = Simple.listen_protocol h
listen_protocol_state (disabled h) = Disabled.listen_protocol h

unfoldable pub listen_protocol : {S : Type 0} → Handler S → ListenProtocol
listen_protocol h = listen_protocol_state h.inner

abbrev connection_keep_alive_state : {S : Type 0} → HandlerState S → KeepAlive
connection_keep_alive_state (enabled h) = Simple.connection_keep_alive h
connection_keep_alive_state (disabled h) = Disabled.connection_keep_alive h

unfoldable pub connection_keep_alive : {S : Type 0} → Handler S → KeepAlive
connection_keep_alive h = connection_keep_alive_state h.inner

abbrev pub set_inner : {S : Type 0} → Handler S → HandlerState S → Handler S
set_inner h inner = record h { inner = inner }

module _ (F : Framed) where
  open F use {Socket, Substream}

  -- A result of the handler that is driven, put back.
  abbrev pub put_back :
      Handler Substream
      → Ended (SimpleHandler Substream) HandlerEvent
      → Ended (Handler Substream) HandlerEvent
  put_back h (Ended.broken s) = Ended.broken (set_inner h (enabled s))
  put_back h (Ended.emitted s e) = Ended.emitted (set_inner h (enabled s)) e
  put_back h Ended.panicked = Ended.panicked
  put_back h Ended.out_of_fuel = Ended.out_of_fuel

  abbrev put_back_disabled :
      Handler Substream
      → DisabledHandler × Poll HandlerEvent
      → Ended (Handler Substream) HandlerEvent
  put_back_disabled h (d, ready e) = Ended.emitted (set_inner h (disabled d)) e
  put_back_disabled h (d, pending) = Ended.broken (set_inner h (disabled d))

  unfoldable pub poll_state :
      Handler Substream → HandlerState Substream → ℕ → Ended (Handler Substream) HandlerEvent
  poll_state h (enabled s) now = put_back h (Simple.poll F s now)
  poll_state h (disabled d) now = put_back_disabled h (Disabled.poll d)

  unfoldable pub poll : Handler Substream → ℕ → Ended (Handler Substream) HandlerEvent
  unfolding poll_state
  poll h now = poll_state h h.inner now

  unfoldable pub behaviour_event_state : HandlerState Substream → Command → HandlerState Substream
  behaviour_event_state (enabled s) c = enabled (Simple.on_behaviour_event F s c)
  behaviour_event_state (disabled d) c = disabled (Disabled.on_behaviour_event d c)

  unfoldable pub on_behaviour_event : Handler Substream → Command → Handler Substream
  unfolding behaviour_event_state
  on_behaviour_event h c = set_inner h (behaviour_event_state h.inner c)

  module _ (kinds : EventKinds Socket) where
    unfoldable pub connection_event_state :
        Handler Substream
        → HandlerState Substream
        → ConnectionEvent Socket
        → Outcome (Handler Substream)
    connection_event_state h (enabled s) event = do
      s' ← Simple.on_connection_event F kinds s event
      returned (set_inner h (enabled s'))
    connection_event_state h (disabled d) event =
        returned (set_inner h (disabled (Disabled.on_connection_event d event)))

    -- `StreamUpgradeError::NegotiationFailed`: the handler is disabled.
    abbrev after_negotiation : Handler Substream → ConnectionEvent Socket → Handler Substream
    after_negotiation h (dial_upgrade_error negotiation_failed) = disable h protocol_unsupported
    after_negotiation h _ = h

    abbrev deliver : Handler Substream → ConnectionEvent Socket → Outcome (Handler Substream)
    deliver h event = connection_event_state h h.inner event

    abbrev count_inbound : Handler Substream → Handler Substream
    count_inbound h = record h { inbound_substream_attempts = h.inbound_substream_attempts + 1 }

    abbrev count_outbound : Handler Substream → Handler Substream
    count_outbound h = record h { outbound_substream_attempts = h.outbound_substream_attempts + 1 }

    -- The part for outbound events, and what follows it.
    unfoldable pub after_inbound :
        Handler Substream → ConnectionEvent Socket → Outcome (Handler Substream)
    unfolding connection_event_state
    after_inbound h event =
        if kinds.is_outbound event
        then (if leb max_attempts (count_outbound h).outbound_substream_attempts
            then returned (disable (count_outbound h) max_substream_attempts)
            else deliver (after_negotiation (count_outbound h) event) event)
        else deliver (after_negotiation h event) event

    unfoldable pub on_connection_event :
        Handler Substream → ConnectionEvent Socket → Outcome (Handler Substream)
    unfolding after_inbound
    on_connection_event h event =
        if kinds.is_inbound event
        then (if leb max_attempts (count_inbound h).inbound_substream_attempts
            then returned (disable (count_inbound h) max_substream_attempts)
            else after_inbound (count_inbound h) event)
        else after_inbound h event
