-- ===== src/Behaviour/Outgoing.antt =====
-- The public calls of floodsub/src/behaviour.rs: `subscribe`, `unsubscribe` and `publish`.
use rust_libp2p_pubsub.Prelude.{
  ℕ, Bool, true, false, not, ◌==◌, Option, List, [], ◌∷◌, is_empty, if◌then◌else◌,
}
use rust_libp2p_pubsub.Prelude.Order.{Bytes, ℕ-ord}
use rust_libp2p_pubsub.Prelude.Outcome.{Outcome, debug_assert, returned, ◌>>=◌}
use rust_libp2p_pubsub.Libp2p.{PeerId, PeerIdBytes}
use rust_libp2p_pubsub.Topic.{TopicHash, Topic, hash_of}
use rust_libp2p_pubsub.Connections.Manager
use rust_libp2p_pubsub.Router
use rust_libp2p_pubsub.Router.{Router}
use rust_libp2p_pubsub.SeqNo
use rust_libp2p_pubsub.Proto.Fragmentation.{Sizes}
use rust_libp2p_pubsub.Frame.Message
use rust_libp2p_pubsub.Frame.Message.{Message}
use rust_libp2p_pubsub.Frame.SubOpts
use rust_libp2p_pubsub.Frame.SubOpts.{SubscriptionAction}
use rust_libp2p_pubsub.Frame.Rpc.{new_with_subscriptions, new_with_messages, into_rpc}
use rust_libp2p_pubsub.Behaviour.{
  PublishError, SubscriptionError, Result, Behaviour, send_to_all, insufficient_peers,
  not_subscribed, message_publish_failed, ok, err,
}

-- The message of `publish`.
abbrev pub build_message : PeerIdBytes → TopicHash → Bytes → Option PeerId → Option ℕ → Message
build_message p topic payload author seqno =
    Message.set_sequence_number (Message.set_source p (Message.new topic payload) author) seqno

module _ (s : Sizes) where
  -- What `subscribe` and `unsubscribe` send to the active peers, if there are any.
  unfoldable pub announce : Behaviour → SubscriptionAction → Behaviour
  unfolding send_to_all
  announce b action =
      if Manager.active_peers_count b.connections == 0
      then b
      else send_to_all s b (Manager.active_peers b.connections)
          (into_rpc (new_with_subscriptions (action ∷ [])))

  unfoldable pub subscribe : Behaviour → Topic → Behaviour × Result SubscriptionError Bool
  subscribe b topic = if Router.is_subscribed b.router (hash_of topic) then (b, ok false) else (
    announce (record b { router = (Router.subscribe b.router (hash_of topic)).0 })
        (SubOpts.subscribe (hash_of topic)),
    ok true,
  )

  unfoldable pub unsubscribe : Behaviour → Topic → Behaviour × Result SubscriptionError Bool
  unsubscribe b topic =
      if Router.is_subscribed b.router (hash_of topic)
      then (
        announce (record b { router = (Router.unsubscribe b.router (hash_of topic)).0 })
            (SubOpts.unsubscribe (hash_of topic)),
        ok true,
      )
      else (b, ok false)

  -- The rest of `publish`, once there are peers to send to. A number that is drawn at random is an
  -- argument.
  unfoldable pub publish_to :
      PeerIdBytes
      → Behaviour
      → List PeerId
      → TopicHash
      → Bytes
      → ℕ
      → Outcome (Behaviour × Result PublishError (Unit {0}))
  unfolding send_to_all
  publish_to p b peers topic payload drawn = do
    (generator, seqno) ← SeqNo.next b.message_seqno_generator drawn
    returned (
      send_to_all s (record b { message_seqno_generator = generator }) peers
          (into_rpc
            (new_with_messages (build_message p topic payload b.message_author seqno ∷ []))),
      ok tt,
    )

  unfoldable pub publish :
      PeerIdBytes
      → Behaviour
      → Topic
      → Bytes
      → ℕ
      → Outcome (Behaviour × Result PublishError (Unit {0}))
  publish p b topic payload drawn =
      let peers = Router.propagation_routes b.router (hash_of topic) in
      if not (Router.is_subscribed b.router (hash_of topic))
      then returned (b, err not_subscribed)
      else debug_assert (Router.propagation_routes_assertion b.router (hash_of topic)) (
          if is_empty peers
          then returned (b, err (message_publish_failed insufficient_peers))
          else publish_to p b peers (hash_of topic) payload drawn)
