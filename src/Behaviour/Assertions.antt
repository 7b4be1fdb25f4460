-- ===== src/Behaviour/Assertions.antt =====
-- The debug assertions under `on_received_rpc_frame` of floodsub/src/behaviour.rs do not fail.
use rust_libp2p_pubsub.Prelude.{◌≡◌, refl, true, List, [], ◌∷◌, arith, inl, inr, Bool-cases}
use rust_libp2p_pubsub.Libp2p.{PeerIdBytes}
use rust_libp2p_pubsub.Router
use rust_libp2p_pubsub.Router.{Router}
use rust_libp2p_pubsub.Proto.{MessageProto}
use rust_libp2p_pubsub.Proto.Validation.{Checked, is_ok, validate_message_proto}
use rust_libp2p_pubsub.Frame.Message
use rust_libp2p_pubsub.Frame.Message.{Message}
use rust_libp2p_pubsub.Frame.Message.Sanitized.{from_proto_lem}
use rust_libp2p_pubsub.Behaviour.Incoming.{conversions_hold, routes_hold, filter_subscribed}

-- A message that passes the validation passes it again after the conversion.
pub conversions_hold_lem :
    (p : PeerIdBytes) (ms : List MessageProto) → conversions_hold p.from_bytes ms ≡ true
unfolding conversions_hold
conversions_hold_lem p [] = refl
conversions_hold_lem p (m ∷ ms) =
    elim (Bool-cases (is_ok (validate_message_proto p.from_bytes m))) [
      | inl v ↦
          let valid : validate_message_proto p.from_bytes m ≡ Checked.ok = ground (arith, v) in
          let (kept, again, a, b, c, d) = from_proto_lem p m valid in
          rw (v, again) (conversions_hold_lem p ms)
      | inr v ↦ rw v (conversions_hold_lem p ms)
    ]

-- What is filtered is of topics that the node is subscribed to.
pub routes_hold-filter_subscribed :
    (r : Router) (ms : List Message) → routes_hold r (filter_subscribed r ms) ≡ true
unfolding routes_hold filter_subscribed
routes_hold-filter_subscribed r [] = refl
routes_hold-filter_subscribed r (m ∷ ms) =
    elim (Bool-cases (Router.is_subscribed r (Message.topic m))) [
      | inl e ↦ rw (e, routes_hold) (rw e (routes_hold-filter_subscribed r ms))
      | inr e ↦ rw e (routes_hold-filter_subscribed r ms)
    ]
