-- ===== src/Handler/Disabling.antt =====
-- When the handler of floodsub/src/handler.rs is disabled, and that it stays so.
use rust_libp2p_pubsub.Prelude.{
  ℕ, ◌+◌, ◌≡◌, Bool, true, false, not, ◌&&◌, leb, if◌then◌else◌, arith,
}
use rust_libp2p_pubsub.Prelude.Outcome.{Outcome, returned, panicked}
use rust_libp2p_pubsub.Handler.Types.{
  Command, Framed, HandlerEvent, notify_behaviour, ConnectionEvent, fully_negotiated_inbound,
  fully_negotiated_outbound, denied_inbound, dial_upgrade_error, listen_upgrade_error,
  address_change, other, timeout, negotiation_failed, io, apply, EventKinds, never, denied,
}
use rust_libp2p_pubsub.Handler.Types
use rust_libp2p_pubsub.Handler.Disabled
use rust_libp2p_pubsub.Handler.Simple.Loop.{Ended, broken, emitted}
use rust_libp2p_pubsub.Handler.{
  Handler, is_enabled, poll, on_behaviour_event, on_connection_event, listen_protocol,
  connection_keep_alive,
}

-- The event tells that the handler is disabled.
abbrev tells_disabled : HandlerEvent → Bool
tells_disabled (notify_behaviour (Types.disabled reason)) = true
tells_disabled _ = false

-- A poll ended, with the handler disabled and no event but that it is.
abbrev pub PollsDisabled : {S : Type 0} → Ended (Handler S) HandlerEvent → Type 0
PollsDisabled (broken h) = is_enabled h ≡ false
PollsDisabled (emitted h e) = (is_enabled h ≡ false) × (tells_disabled e ≡ true)
PollsDisabled _ = ⊥

abbrev pub EndsDisabled : {S : Type 0} → Outcome (Handler S) → Type 0
EndsDisabled (returned h) = is_enabled h ≡ false
EndsDisabled panicked = ⊥

-- A negotiation that failed disables the handler at once.
abbrev is_unsupported : {K : Type 0} → ConnectionEvent K → Bool
is_unsupported (dial_upgrade_error negotiation_failed) = true
is_unsupported _ = false

-- What an event does to the counters, and whether the handler is enabled after it.
abbrev pub Accounts : {S : Type 0} → Handler S → Bool → Bool → Bool → Outcome (Handler S) → Type 0
Accounts h inbound outbound unsupported panicked = Unit
Accounts h inbound outbound unsupported (returned h') =
    (h'.inbound_substream_attempts
      ≡ (if inbound then h.inbound_substream_attempts + 1 else h.inbound_substream_attempts))
    × (h'.outbound_substream_attempts
        ≡ (if outbound then h.outbound_substream_attempts + 1 else h.outbound_substream_attempts))
    × (is_enabled h' ≡ (
        is_enabled h
        && not unsupported
        && not (inbound && leb 5 (h.inbound_substream_attempts + 1))
        && not (outbound && leb 5 (h.outbound_substream_attempts + 1))))

module _ (F : Framed) (kinds : EventKinds F.Socket) where
  -- A disabled handler stays disabled after a poll, a command or an event. It does not panic at
  -- one, keeps no connection alive, offers no protocol, ignores commands, and tells nothing but
  -- that it is disabled.
  pub disabled_stays :
      (h : Handler F.Substream) (now : ℕ) (c : Command) (e : ConnectionEvent F.Socket)
      → is_enabled h ≡ false
      → PollsDisabled (poll F h now)
        × (on_behaviour_event F h c ≡ h)
        × EndsDisabled (on_connection_event F kinds h e)
        × (connection_keep_alive h ≡ never)
        × (listen_protocol h ≡ denied)
  unfolding poll on_behaviour_event on_connection_event connection_keep_alive listen_protocol
      Disabled.poll
  disabled_stays h now c e off =
      (ground arith, ground arith, ground arith, ground arith, ground arith)

  apart : (e : ConnectionEvent F.Socket) → (kinds.is_inbound e && kinds.is_outbound e) ≡ false
  apart (fully_negotiated_inbound k) = ground (arith, kinds.inbound_not_outbound k)
  apart (fully_negotiated_outbound k) = ground (arith, kinds.outbound_not_inbound k)
  apart denied_inbound = ground (arith, kinds.denied_not_outbound)
  apart (dial_upgrade_error e) = ground (arith, kinds.dial_not_inbound e)
  apart listen_upgrade_error = ground (arith, kinds.listen_not_outbound)
  apart address_change = ground (arith, kinds.address_not_outbound)
  apart other = ground (arith, kinds.other_not_outbound)

  dialled : (e : ConnectionEvent F.Socket) → is_unsupported e ≡ true → kinds.is_outbound e ≡ true
  dialled (fully_negotiated_inbound k) u = absurd (cc)
  dialled (fully_negotiated_outbound k) u = absurd (cc)
  dialled denied_inbound u = absurd (cc)
  dialled (dial_upgrade_error e) u = kinds.dial_is_outbound e
  dialled listen_upgrade_error u = absurd (cc)
  dialled address_change u = absurd (cc)
  dialled other u = absurd (cc)

  -- An event that is handled without a panic is counted under its direction, and leaves the
  -- handler enabled exactly if it was, the event is no failed negotiation, and it is not the fifth
  -- of its direction or a later one.
  pub on_connection_event-Accounts :
      (h : Handler F.Substream) (e : ConnectionEvent F.Socket)
      → Accounts h
          (kinds.is_inbound e)
          (kinds.is_outbound e)
          (is_unsupported e)
          (on_connection_event F kinds h e)
  unfolding on_connection_event
  on_connection_event-Accounts h e = ground (arith, apart e, dialled e)
