-- ===== src/Behaviour/Incoming.antt =====
-- The handling of what comes in, in floodsub/src/behaviour.rs: frames, messages and subscriptions.
use rust_libp2p_pubsub.Prelude.{Bool, true, ◌&&◌, Option, List, [], ◌∷◌, is_empty, if◌then◌else◌}
use rust_libp2p_pubsub.Prelude.Order.{Bytes, ℕ-ord, same}
use rust_libp2p_pubsub.Prelude.Outcome.{Outcome, returned, debug_assert, ◌>>=◌}
use rust_libp2p_pubsub.Libp2p.{PeerId, PeerIdBytes}
use rust_libp2p_pubsub.Collections.VecMap.{VecMap, add}
use rust_libp2p_pubsub.Router
use rust_libp2p_pubsub.Router.{Router}
use rust_libp2p_pubsub.Proto.{MessageProto, SubOptsProto, RpcProto}
use rust_libp2p_pubsub.Proto.Validation.{
  is_ok, validate_message_proto, validate_subopts_proto, validate_rpc_proto,
}
use rust_libp2p_pubsub.Proto.Fragmentation.{Sizes}
use rust_libp2p_pubsub.Frame.Message
use rust_libp2p_pubsub.Frame.Message.{Message}
use rust_libp2p_pubsub.Frame.SubOpts
use rust_libp2p_pubsub.Frame.SubOpts.{SubscriptionAction}
use rust_libp2p_pubsub.Frame.Rpc.{new_with_messages, into_rpc}
use rust_libp2p_pubsub.Behaviour.{Behaviour, emit_behaviour_event, send_rpc_frame, message}

-- `handle_received_subscriptions`
unfoldable pub handle_received_subscriptions :
    Behaviour → PeerId → List SubscriptionAction → Behaviour
handle_received_subscriptions b src [] = b
handle_received_subscriptions b src (SubOpts.subscribe topic ∷ subs) =
    handle_received_subscriptions
      (record b { router = Router.add_peer_subscription b.router src topic }) src subs
handle_received_subscriptions b src (SubOpts.unsubscribe topic ∷ subs) =
    handle_received_subscriptions
      (record b { router = Router.remove_peer_subscription b.router src topic }) src subs

-- `filter(|msg| self.router.is_subscribed(&msg.topic()))`
unfoldable pub filter_subscribed : Router → List Message → List Message
filter_subscribed r [] = []
filter_subscribed r (m ∷ ms) =
    if Router.is_subscribed r (Message.topic m)
    then m ∷ filter_subscribed r ms
    else filter_subscribed r ms

unfoldable pub emit_messages : Behaviour → PeerId → List Message → Behaviour
emit_messages b src [] = b
emit_messages b src (m ∷ ms) =
    emit_messages (emit_behaviour_event b (message src (Message.topic m) m)) src ms

-- The peers that a message goes on to: not the one that it came from.
unfoldable pub next_hops : PeerId → List PeerId → List PeerId
next_hops src [] = []
next_hops src (p ∷ ps) = if same p src then next_hops src ps else p ∷ next_hops src ps

unfoldable pub push_to_all : List PeerId → Message → VecMap PeerId Message → VecMap PeerId Message
push_to_all [] m mmap = mmap
push_to_all (peer ∷ peers) m mmap = push_to_all peers m (add peer m mmap)

-- The fold that groups the messages by the peer that they go on to.
unfoldable pub group_messages :
    Router → PeerId → List Message → VecMap PeerId Message → VecMap PeerId Message
group_messages r src [] mmap = mmap
group_messages r src (m ∷ ms) mmap =
    group_messages r src ms
      (push_to_all (next_hops src (Router.propagation_routes r (Message.topic m))) m mmap)

-- `filter_map`: the messages that pass the validation, converted.
unfoldable pub convert_messages : (Bytes → Option PeerId) → List MessageProto → List Message
convert_messages from_bytes [] = []
convert_messages from_bytes (m ∷ ms) =
    if is_ok (validate_message_proto from_bytes m)
    then Message.from_proto m ∷ convert_messages from_bytes ms
    else convert_messages from_bytes ms

-- The assertions of the conversions in `convert_messages`.
unfoldable pub conversions_hold : (Bytes → Option PeerId) → List MessageProto → Bool
conversions_hold from_bytes [] = true
conversions_hold from_bytes (m ∷ ms) =
    if is_ok (validate_message_proto from_bytes m)
    then Message.from_proto_assertion from_bytes m && conversions_hold from_bytes ms
    else conversions_hold from_bytes ms

-- The assertions of the calls of `propagation_routes` in `group_messages`.
unfoldable pub routes_hold : Router → List Message → Bool
routes_hold r [] = true
routes_hold r (m ∷ ms) = Router.propagation_routes_assertion r (Message.topic m) && routes_hold r ms

-- `filter_map`: the subscriptions that pass the validation, converted.
unfoldable pub convert_subscriptions : List SubOptsProto → Outcome (List SubscriptionAction)
convert_subscriptions [] = returned []
convert_subscriptions (sub ∷ subs) =
    let rest = convert_subscriptions subs in
    if is_ok (validate_subopts_proto sub)
    then (SubOpts.from_proto sub >>= λ action. rest >>= λ actions. returned (action ∷ actions))
    else rest

module _ (s : Sizes) where
  -- The loop over `peer_frames`.
  unfoldable pub send_groups : Behaviour → List (PeerId × List Message) → Behaviour
  send_groups b [] = b
  send_groups b ((peer, messages) ∷ groups) =
      send_groups (send_rpc_frame s b peer (into_rpc (new_with_messages messages))).0 groups

  -- `handle_received_messages`
  unfoldable pub handle_received_messages : Behaviour → PeerId → List Message → Behaviour
  handle_received_messages b src received =
      let messages = filter_subscribed b.router received in
      if is_empty messages
      then b
      else send_groups (emit_messages b src messages) (group_messages b.router src messages [])

  -- `on_received_rpc_frame`
  unfoldable pub on_received_rpc_frame :
      PeerIdBytes → Behaviour → PeerId → RpcProto → Outcome Behaviour
  on_received_rpc_frame p b src frame =
      if is_ok (validate_rpc_proto frame)
      then (convert_subscriptions frame.subscriptions >>= λ subscriptions.
          let messages = convert_messages p.from_bytes frame.publish in
          debug_assert (conversions_hold p.from_bytes frame.publish) (
            debug_assert (routes_hold b.router (filter_subscribed b.router messages)) (
              returned (
                handle_received_subscriptions (handle_received_messages b src messages) src
                  subscriptions))))
      else returned b
