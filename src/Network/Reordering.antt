-- ===== src/Network/Reordering.antt =====
-- Frames that wait together in a connection handler of floodsub/src/handler.rs, handled by a node of
-- floodsub/src/behaviour.rs at the other end.
use mathlib.Core.List.{reverse, reverse-cons}
use rust_libp2p_pubsub.Prelude.{
  ℕ, ◌≡◌, refl, ap, ◌∙◌, true, false, none, some, List, [], ◌∷◌, ◌++◌, map, is_empty, arith,
}
use rust_libp2p_pubsub.Prelude.Order.{ℕ-ord}
use rust_libp2p_pubsub.Prelude.Outcome.{Outcome, returned, ◌>>=◌}
use rust_libp2p_pubsub.Libp2p.{PeerId, PeerIdBytes}
use rust_libp2p_pubsub.Topic.{TopicHash, TopicHash-ord}
use rust_libp2p_pubsub.Collections.BTreeSet
use rust_libp2p_pubsub.Router.{propagation_routes}
use rust_libp2p_pubsub.Router.Invariant.{IsCoherent}
use rust_libp2p_pubsub.Proto.{RpcProto}
use rust_libp2p_pubsub.Proto.Fragmentation.{Sizes}
use rust_libp2p_pubsub.Frame.SubOpts
use rust_libp2p_pubsub.Frame.SubOpts.{SubscriptionAction, topic_id}
use rust_libp2p_pubsub.Handler.Types.{Framed, waiting_output}
use rust_libp2p_pubsub.Handler.Simple.{SimpleHandler, poll}
use rust_libp2p_pubsub.Handler.Simple.Loop.{broken}
use rust_libp2p_pubsub.Handler.Simple.Order.{TakesAll, poll-reverse}
use rust_libp2p_pubsub.Behaviour.{Behaviour}
use rust_libp2p_pubsub.Behaviour.Incoming.{on_received_rpc_frame}
use rust_libp2p_pubsub.Behaviour.Frames.{handles_frame}
use rust_libp2p_pubsub.Behaviour.Subscribing.{announcement}
use rust_libp2p_pubsub.Behaviour.Network.{joins, announcement-routes}

module _ (s : Sizes) (ids : PeerIdBytes) where
  -- A node handles frames of one peer, one after the other.
  unfoldable pub handle_all : Behaviour → PeerId → List RpcProto → Outcome Behaviour
  handle_all b src [] = returned b
  handle_all b src (frame ∷ frames) =
      on_received_rpc_frame s ids b src frame >>= λ b'. handle_all b' src frames

  -- Whatever came before, the last announcement decides on its topic.
  last_handled :
      (frames : List RpcProto) (b : Behaviour) (src : PeerId) (a : SubscriptionAction)
      → IsCoherent b.router
      → is_empty (topic_id a).hash ≡ false
      → (b' : Behaviour) × (handle_all b src (frames ++ announcement a ∷ []) ≡ returned b')
        × (BTreeSet.contains src (propagation_routes b'.router (topic_id a)) ≡ joins a)
  unfolding handle_all
  last_handled [] b src a c e =
      let (b', done, routes, tells) = announcement-routes s ids b src a src (topic_id a) c e in
      (b', rw done refl, routes ∙ ground arith)
  last_handled (frame ∷ frames) b src a c e =
      let (b₁, done, tells, sent, routes, c') =
        handles_frame s ids b src frame src (topic_id a) c in
      let (b', rest, last) = last_handled frames b₁ src a c' e in (b', rw done rest, last)

  module _ (F : Framed) (sent : F.Substream → List RpcProto) (w : TakesAll F sent) where
    -- If a subscription to a topic that is not empty waits first in a handler's queue, with any
    -- other announcements queued after it, such as its own end, no inbound substream and an idle
    -- outbound one, then one poll sends frames on a stream that takes all that it is given. A node
    -- whose router's tables agree, and which handles these frames in the order in which they were
    -- sent, does not panic and has the sender on its routes of the topic in the end.
    pub stale_route :
        (h : SimpleHandler F.Substream) (now : ℕ) (stream : F.Substream) (b : Behaviour)
        (src : PeerId) (t : TopicHash) (later : List SubscriptionAction)
        → h.inbound_substream ≡ none
        → h.outbound_substream ≡ some (waiting_output stream)
        → h.send_queue ≡ map announcement (SubOpts.subscribe t ∷ later)
        → IsCoherent b.router
        → is_empty t.hash ≡ false
        → (h' : SimpleHandler F.Substream) × (stream' : F.Substream) × (frames : List RpcProto)
          × (poll F h now ≡ broken h')
          × (h'.outbound_substream ≡ some (waiting_output stream'))
          × (sent stream' ≡ sent stream ++ frames)
          × (b' : Behaviour) × (handle_all b src frames ≡ returned b')
          × (BTreeSet.contains src (propagation_routes b'.router t) ≡ true)
    stale_route h now stream b src t later i o q c e =
        let (h', stream', polled, empty, idle, given) = poll-reverse F sent w h now stream i o in
        let others = reverse (map announcement later) in
        let frames = others ++ announcement (SubOpts.subscribe t) ∷ [] in
        let (b', done, routes) = last_handled others b src (SubOpts.subscribe t) c e in
        (
          h',
          stream',
          frames,
          polled,
          idle,
          given
              ∙ ap (λ (k : List RpcProto). sent stream ++ k)
                  (ap reverse q
                    ∙ reverse-cons (announcement (SubOpts.subscribe t)) (map announcement later)),
          b',
          done,
          routes,
        )
