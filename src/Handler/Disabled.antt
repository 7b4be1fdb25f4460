-- ===== src/Handler/Disabled.antt =====
-- `DisabledHandler` of floodsub/src/handler.rs: it reports its reason once and ignores the rest.
use rust_libp2p_pubsub.Prelude.{Bool, true, false, if◌then◌else◌}
use rust_libp2p_pubsub.Handler.Types.{
  Command, DisabledHandlerReason, disabled, Poll, ready, pending, HandlerEvent, notify_behaviour,
  ConnectionEvent, KeepAlive, never, ListenProtocol, denied,
}

pub record DisabledHandler : Type 0 where
  pub reason : DisabledHandlerReason
  pub reason_emitted : Bool

abbrev pub with_reason : DisabledHandlerReason → DisabledHandler
with_reason reason = record { reason = reason; reason_emitted = false }

abbrev pub listen_protocol : DisabledHandler → ListenProtocol
listen_protocol h = denied

abbrev pub connection_keep_alive : DisabledHandler → KeepAlive
connection_keep_alive h = never

unfoldable pub poll : DisabledHandler → DisabledHandler × Poll HandlerEvent
poll h =
    if h.reason_emitted
    then (h, pending)
    else (record h { reason_emitted = true }, ready (notify_behaviour (disabled h.reason)))

abbrev pub on_behaviour_event : DisabledHandler → Command → DisabledHandler
on_behaviour_event h event = h

abbrev pub on_connection_event :
    {K : Type 0} → DisabledHandler → ConnectionEvent K → DisabledHandler
on_connection_event h event = h
