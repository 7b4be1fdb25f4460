-- ===== src/Network/Hearing.antt =====
-- What a node of floodsub/src/behaviour.rs tells its application of the messages in frames.
use rust_libp2p_pubsub.Prelude.{◌≡◌, refl, ap, List, [], ◌∷◌, ◌++◌, arith}
use rust_libp2p_pubsub.Libp2p.{PeerId, PeerIdBytes}
use rust_libp2p_pubsub.Topic.{TopicHash}
use rust_libp2p_pubsub.Router
use rust_libp2p_pubsub.Router.{Router}
use rust_libp2p_pubsub.Proto.{MessageProto}
use rust_libp2p_pubsub.Frame.Message
use rust_libp2p_pubsub.Frame.Message.{Message}
use rust_libp2p_pubsub.Behaviour.{Behaviour, Event}
use rust_libp2p_pubsub.Behaviour.Incoming.{filter_subscribed, convert_messages}
use rust_libp2p_pubsub.Behaviour.Grouping.{notices}

-- The valid messages of the topics that the node is subscribed to, as its application is told them.
abbrev pub heard : PeerIdBytes → Behaviour → PeerId → List MessageProto → List Event
heard ids b src ms = notices src (filter_subscribed b.router (convert_messages ids.from_bytes ms))

module _ (ids : PeerIdBytes) (b : Behaviour) (src : PeerId) where
  pub heard-nil : heard ids b src [] ≡ []
  unfolding filter_subscribed convert_messages
  heard-nil = refl

  pub heard-append :
      (xs ys : List MessageProto)
      → heard ids b src (xs ++ ys) ≡ heard ids b src xs ++ heard ids b src ys
  unfolding filter_subscribed convert_messages
  heard-append [] ys = refl
  heard-append (x ∷ xs) ys = ground (arith, heard-append xs ys)

filter_subscribed-same :
    (r r' : Router) (ms : List Message)
    → ((t : TopicHash) → Router.is_subscribed r' t ≡ Router.is_subscribed r t)
    → filter_subscribed r' ms ≡ filter_subscribed r ms
unfolding filter_subscribed
filter_subscribed-same r r' [] h = refl
filter_subscribed-same r r' (m ∷ ms) h =
    ground (arith, h (Message.topic m), filter_subscribed-same r r' ms h)

-- It depends on the node's own subscriptions only.
pub heard-same :
    (ids : PeerIdBytes) (b b' : Behaviour) (src : PeerId) (ms : List MessageProto)
    → ((t : TopicHash) → Router.is_subscribed b'.router t ≡ Router.is_subscribed b.router t)
    → heard ids b' src ms ≡ heard ids b src ms
heard-same ids b b' src ms h =
    ap (notices src)
      (filter_subscribed-same b.router b'.router (convert_messages ids.from_bytes ms) h)
