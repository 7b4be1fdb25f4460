-- ===== src/Behaviour/Network.antt =====
-- What one node of floodsub/src/behaviour.rs sends, handled by another.
use rust_libp2p_pubsub.Prelude.{
  ℕ, ◌≡◌, refl, ap, ◌∙◌, Bool, true, false, not, ◌&&◌, Option, none, some, List, [], ◌∷◌, ◌++◌,
  is_empty, if◌then◌else◌, arith, append-nil,
}
use rust_libp2p_pubsub.Prelude.Order.{ℕ-ord, same, Bytes}
use rust_libp2p_pubsub.Prelude.Outcome.{returned}
use rust_libp2p_pubsub.Libp2p.{PeerId, PeerIdBytes}
use rust_libp2p_pubsub.Topic.{TopicHash, TopicHash-ord}
use rust_libp2p_pubsub.Collections.BTreeSet
use rust_libp2p_pubsub.Router
use rust_libp2p_pubsub.Router.{Router, propagation_routes}
use rust_libp2p_pubsub.Router.Invariant.{IsCoherent}
use rust_libp2p_pubsub.Proto.Validation.{is_ok, validate_message_proto}
use rust_libp2p_pubsub.Proto.Fragmentation.{Sizes}
use rust_libp2p_pubsub.Proto.Fragmentation.Contents.{join}
use rust_libp2p_pubsub.Frame.Bytes.{to_be_bytes, length-to_be}
use rust_libp2p_pubsub.Frame.Message
use rust_libp2p_pubsub.Frame.Message.{Message, drop_empty}
use rust_libp2p_pubsub.Frame.Message.Fields.{FitsU64, published, published-reads}
use rust_libp2p_pubsub.Frame.SubOpts
use rust_libp2p_pubsub.Frame.SubOpts.{SubscriptionAction, topic_id}
use rust_libp2p_pubsub.Frame.Rpc.{new_with_messages, into_rpc}
use rust_libp2p_pubsub.Behaviour.{Behaviour, Event, message}
use rust_libp2p_pubsub.Behaviour.Incoming.{
  filter_subscribed, convert_messages, on_received_rpc_frame,
}
use rust_libp2p_pubsub.Behaviour.Sending.{sent_to, told}
use rust_libp2p_pubsub.Behaviour.Receiving.{forwarded}
use rust_libp2p_pubsub.Behaviour.Grouping.{wanted, notices}
use rust_libp2p_pubsub.Behaviour.Entries.{heeds}
use rust_libp2p_pubsub.Behaviour.Frames.{handles_frame}
use rust_libp2p_pubsub.Behaviour.Subscribing.{announcement}

abbrev pub joins : SubscriptionAction → Bool
joins (SubOpts.subscribe topic) = true
joins (SubOpts.unsubscribe topic) = false

heeds-into_proto :
    (a : SubscriptionAction) (t : TopicHash) (b : Bool)
    → is_empty (topic_id a).hash ≡ false
    → heeds (SubOpts.into_proto a) t b ≡ (if same t (topic_id a) then joins a else b)
unfolding SubOpts.into_proto
heeds-into_proto (SubOpts.subscribe u) t b e = ground arith
heeds-into_proto (SubOpts.unsubscribe u) t b e = ground arith

kept_peer : (p : PeerIdBytes) (a : PeerId) → drop_empty (some (p.to_bytes a)) ≡ some (p.to_bytes a)
kept_peer p a = ground (arith, p.from_bytes-to_bytes a, p.from_bytes-nil)

kept_number : (n : ℕ) → drop_empty (some (to_be_bytes n)) ≡ some (to_be_bytes n)
kept_number n = ground (arith, length-to_be 8 n)

-- A message as it is published is what the receiver's conversion gives.
pub from_proto-published :
    (p : PeerIdBytes) (t : TopicHash) (payload : Bytes) (author : Option PeerId) (seqno : Option ℕ)
    → let m = published p t payload author seqno in Message.from_proto m.proto ≡ m
unfolding Message.from_proto Message.set_sequence_number Message.set_source Message.new
from_proto-published p t payload none none = refl
from_proto-published p t payload none (some n) = λ i. record {
  proto = record (published p t payload none (some n)).proto { seqno = kept_number n i };
}
from_proto-published p t payload (some a) none = λ i. record {
  proto = record (published p t payload (some a) none).proto { from = kept_peer p a i };
}
from_proto-published p t payload (some a) (some n) = λ i. record {
  proto = record (published p t payload (some a) (some n)).proto {
    from = kept_peer p a i;
    seqno = kept_number n i;
  };
}

pub converted :
    (p : PeerIdBytes) (m : Message)
    → is_ok (validate_message_proto p.from_bytes m.proto) ≡ true
    → Message.from_proto m.proto ≡ m
    → convert_messages p.from_bytes (m.proto ∷ []) ≡ m ∷ []
unfolding convert_messages
converted p m v e = rw (v, e) refl

pub told_one :
    (r : Router) (src : PeerId) (m : Message)
    → notices src (filter_subscribed r (m ∷ [])) ≡ (
        if Router.is_subscribed r (Message.topic m)
        then message src (Message.topic m) m ∷ []
        else [])
unfolding filter_subscribed
told_one r src m = ground arith

wanted_one :
    (r : Router) (src q : PeerId) (m : Message)
    → wanted r src q (m ∷ []) ≡ (
        if Router.is_subscribed r (Message.topic m)
          && (BTreeSet.contains q (propagation_routes r (Message.topic m)) && not (same q src))
        then m ∷ []
        else [])
unfolding wanted
wanted_one r src q m = ground arith

module _ (s : Sizes) (p : PeerIdBytes) where
  -- The frame by which a node tells of a subscription to a topic that is not empty, or of its end,
  -- is handled by a node whose router's tables agree without a panic: afterwards the sender is on
  -- the routes of that topic, or is not, all other routes are as they were, and the application is
  -- told nothing.
  pub announcement-routes :
      (b : Behaviour) (src : PeerId) (a : SubscriptionAction) (q : PeerId) (t : TopicHash)
      → IsCoherent b.router
      → is_empty (topic_id a).hash ≡ false
      → (b' : Behaviour) × (on_received_rpc_frame s p b src (announcement a) ≡ returned b')
        × (BTreeSet.contains q (propagation_routes b'.router t) ≡ (
            if same q src && same t (topic_id a)
            then joins a
            else BTreeSet.contains q (propagation_routes b.router t)))
        × (told b'.swarm_out_events ≡ told b.swarm_out_events)
  unfolding into_rpc
  announcement-routes b src a q t c e =
      let (b', r, tells, sent, routes, c') = handles_frame s p b src (announcement a) q t c in
      (
        b',
        r,
        routes
            ∙ ground (
              arith,
              heeds-into_proto a t (BTreeSet.contains q (propagation_routes b.router t)) e,
            ),
        tells ∙ (unfold convert_messages filter_subscribed in append-nil (told b.swarm_out_events)),
      )

  -- A frame with one message as `publish` builds it, with a topic that is not empty and a number
  -- of 64 bits if any, is handled by a node whose router's tables agree without a panic. If the
  -- node is subscribed to the topic, its application is told that very message, and each peer on
  -- the routes but the sender is sent it, if its frame can be fragmented; else nothing is told or
  -- sent. The message's readers give the author, the number and the payload that it was built
  -- with.
  pub published_message-told :
      (b : Behaviour) (src q : PeerId) (t : TopicHash) (payload : Bytes) (author : Option PeerId)
      (seqno : Option ℕ)
      → IsCoherent b.router
      → is_empty t.hash ≡ false
      → FitsU64 seqno
      → let m = published p t payload author seqno in
        let subscribed = Router.is_subscribed b.router t in
        (b' : Behaviour) × (on_received_rpc_frame s p b src (into_rpc (new_with_messages (m ∷ [])))
          ≡ returned b')
        × (told b'.swarm_out_events
            ≡ told b.swarm_out_events ++ (if subscribed then message src t m ∷ [] else []))
        × (sent_to q b'.swarm_out_events
            ≡ join (sent_to q b.swarm_out_events) (
                forwarded s b.config.max_frame_size (
                  if subscribed
                    && (BTreeSet.contains q (propagation_routes b.router t) && not (same q src))
                  then m ∷ []
                  else [])))
        × (Message.source p m ≡ returned author)
        × (Message.sequence_number m ≡ returned seqno)
        × (Message.payload m ≡ returned payload)
  unfolding into_rpc Message.set_sequence_number Message.set_source Message.new
  published_message-told b src q t payload author seqno c e fits =
      let m = published p t payload author seqno in
      let (source, number, bytes, on_topic, valid) =
        published-reads p t payload author seqno fits e in
      let (b', r, tells, sent, routes, c') =
        handles_frame s p b src (into_rpc (new_with_messages (m ∷ []))) q t c in
      let received =
        converted p m (ground (arith, valid)) (from_proto-published p t payload author seqno) in
      (
        b',
        r,
        tells
            ∙ ap
                (λ (ms : List Message).
                  told b.swarm_out_events ++ notices src (filter_subscribed b.router ms))
                received
            ∙ ap (λ (k : List Event). told b.swarm_out_events ++ k) (told_one b.router src m),
        sent
            ∙ ap
                (λ (ms : List Message).
                  join (sent_to q b.swarm_out_events) (forwarded s b.config.max_frame_size ms))
                (ap (wanted b.router src q) received ∙ wanted_one b.router src q m),
        source,
        number,
        bytes,
      )
