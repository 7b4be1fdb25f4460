-- ===== src/Handler/Types.antt =====
-- The data of floodsub/src/handler.rs, and the foreign code that the handlers drive: a framed stream
-- (`asynchronous_codec::Framed` with the codec of common/src/codec), and the swarm's events.
use rust_libp2p_pubsub.Prelude.{ℕ, ◌≡◌, Bool, true, false}
use rust_libp2p_pubsub.Prelude.Order.{Bytes}
use rust_libp2p_pubsub.Proto.{RpcProto}

pub data Command : Type 0 where
  send_frame : RpcProto → Command
  keep_alive : Command

pub data DisabledHandlerReason : Type 0 where
  protocol_unsupported max_substream_attempts : DisabledHandlerReason

pub data Event : Type 0 where
  frame_received : RpcProto → Event
  disabled : DisabledHandlerReason → Event

-- `std::task::Poll`
pub data Poll {ℓ} (A : Type ℓ) : Type ℓ where
  ready : A → Poll A
  pending : Poll A

-- What a read gives: a frame, an error, or the end of the stream.
pub data Received : Type 0 where
  frame : RpcProto → Received
  failed closed : Received

-- A framed stream. Each operation gives the stream as it is afterwards; `true` stands for `Ok`.
pub record Framed : Type 1 where
  pub Socket : Type 0
  pub Substream : Type 0
  -- `Framed::new(socket, Codec::new(max_frame_size))`
  pub new : Socket → ℕ → Substream
  pub poll_next : Substream → Substream × Poll Received
  pub poll_close : Substream → Substream × Poll Bool
  pub poll_ready : Substream → Substream × Poll Bool
  pub start_send : Substream → RpcProto → Substream × Bool
  pub poll_flush : Substream → Substream × Poll Bool

pub data InboundSubstreamState (S : Type 0) : Type 0 where
  waiting_input closing : S → InboundSubstreamState S
  poisoned : InboundSubstreamState S

pub data OutboundSubstreamState (S : Type 0) : Type 0 where
  waiting_output : S → OutboundSubstreamState S
  pending_send : S → RpcProto → OutboundSubstreamState S
  pending_flush : S → OutboundSubstreamState S
  poisoned : OutboundSubstreamState S

-- `ConnectionHandlerEvent`, the two that the handlers emit.
pub data HandlerEvent : Type 0 where
  outbound_substream_request : Bytes → HandlerEvent
  notify_behaviour : Event → HandlerEvent

pub data StreamUpgradeError : Type 0 where
  timeout negotiation_failed io apply : StreamUpgradeError

-- `ConnectionEvent`. An inbound stream is negotiated by the upgrade or, `denied`, by `DeniedUpgrade`.
pub data ConnectionEvent (K : Type 0) : Type 0 where
  fully_negotiated_inbound fully_negotiated_outbound : K → ConnectionEvent K
  denied_inbound : ConnectionEvent K
  dial_upgrade_error : StreamUpgradeError → ConnectionEvent K
  listen_upgrade_error address_change other : ConnectionEvent K

-- `is_inbound` and `is_outbound`: whether an event concerns a stream of that direction, negotiated
-- or failed.
pub record EventKinds (K : Type 0) : Type 0 where
  pub is_inbound : ConnectionEvent K → Bool
  pub is_outbound : ConnectionEvent K → Bool
  pub inbound_negotiated : (k : K) → is_inbound (fully_negotiated_inbound k) ≡ true
  pub inbound_not_outbound : (k : K) → is_outbound (fully_negotiated_inbound k) ≡ false
  pub denied_is_inbound : is_inbound denied_inbound ≡ true
  pub denied_not_outbound : is_outbound denied_inbound ≡ false
  pub outbound_negotiated : (k : K) → is_outbound (fully_negotiated_outbound k) ≡ true
  pub outbound_not_inbound : (k : K) → is_inbound (fully_negotiated_outbound k) ≡ false
  pub dial_is_outbound : (e : StreamUpgradeError) → is_outbound (dial_upgrade_error e) ≡ true
  pub dial_not_inbound : (e : StreamUpgradeError) → is_inbound (dial_upgrade_error e) ≡ false
  pub listen_is_inbound : is_inbound listen_upgrade_error ≡ true
  pub listen_not_outbound : is_outbound listen_upgrade_error ≡ false
  pub address_not_inbound : is_inbound address_change ≡ false
  pub address_not_outbound : is_outbound address_change ≡ false
  pub other_not_inbound : is_inbound other ≡ false
  pub other_not_outbound : is_outbound other ≡ false

pub data KeepAlive : Type 0 where
  always never : KeepAlive
  until : ℕ → KeepAlive

-- What `listen_protocol` offers: the upgrade of a protocol, or none.
pub data ListenProtocol : Type 0 where
  upgrade : Bytes → ListenProtocol
  denied : ListenProtocol
