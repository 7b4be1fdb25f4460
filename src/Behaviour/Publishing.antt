-- ===== src/Behaviour/Publishing.antt =====
-- `publish` of floodsub/src/behaviour.rs.
use rust_libp2p_pubsub.Prelude.{
  ℕ, ◌≡◌, refl, sym, ap, ◌∙◌, Bool, not, ◌&&◌, Option, [], ◌∷◌, is_empty, if◌then◌else◌, arith, inl,
  inr, Bool-cases,
}
use rust_libp2p_pubsub.Prelude.Order.{ℕ-ord, Bytes}
use rust_libp2p_pubsub.Prelude.Outcome.{returned}
use rust_libp2p_pubsub.Libp2p.{PeerId, PeerIdBytes}
use rust_libp2p_pubsub.Topic.{TopicHash, Topic, hash_of}
use rust_libp2p_pubsub.Collections.BTreeSet
use rust_libp2p_pubsub.Router
use rust_libp2p_pubsub.Router.{Router, propagation_routes}
use rust_libp2p_pubsub.Router.Invariant.{IsCoherent}
use rust_libp2p_pubsub.Router.Refinement.{propagation_routes-IsAscending}
use rust_libp2p_pubsub.SeqNo
use rust_libp2p_pubsub.SeqNo.{MessageSeqNumberGenerator}
use rust_libp2p_pubsub.Proto.{RpcProto, MessageProto}
use rust_libp2p_pubsub.Proto.Fragmentation.{Sizes}
use rust_libp2p_pubsub.Proto.Fragmentation.Contents.{contents, join, nothing, join-nothing}
use rust_libp2p_pubsub.Prelude.{none, some}
use rust_libp2p_pubsub.Frame.Bytes.{to_be_bytes}
use rust_libp2p_pubsub.Frame.Message
use rust_libp2p_pubsub.Frame.Rpc.{new_with_messages, into_rpc}
use rust_libp2p_pubsub.Behaviour.{
  Behaviour, Result, ok, err, PublishError, not_subscribed, message_publish_failed,
  insufficient_peers, send_to_all,
}
use rust_libp2p_pubsub.Behaviour.Outgoing.{build_message, publish, publish_to}
use rust_libp2p_pubsub.Behaviour.Sending.{sent_to, told, can_send, send_to_all_lem}

-- What a publication reports: whether it was given to the subscribers.
abbrev pub report : Bool → Bool → Result PublishError (Unit {0})
report subscribed lonely =
    if not subscribed
    then err not_subscribed
    else if lonely
    then err (message_publish_failed insufficient_peers)
    else ok tt

-- A frame with one message and nothing else.
abbrev carries : MessageProto → RpcProto
carries m = record { subscriptions = []; publish = m ∷ []; control = none }

abbrev source_field : PeerIdBytes → Option PeerId → Option Bytes
source_field p none = none
source_field p (some author) = some (p.to_bytes author)

abbrev number_field : Option ℕ → Option Bytes
number_field none = none
number_field (some n) = some (to_be_bytes n)

-- The frame with the topic, the payload, the behaviour's author and a number, if any, in 8 bytes.
abbrev pub envelope : PeerIdBytes → Behaviour → TopicHash → Bytes → Option ℕ → RpcProto
envelope p b t payload seqno = carries (record {
  from = source_field p b.message_author;
  payload = some payload;
  seqno = number_field seqno;
  topic = t.hash;
  signature = none;
  key = none;
})

module _ (s : Sizes) (p : PeerIdBytes) where
  -- The frame of a publication: one message, of the behaviour's author and with the number drawn.
  abbrev pub publication : Behaviour → TopicHash → Bytes → Option ℕ → RpcProto
  publication b t payload seqno =
      into_rpc (new_with_messages (build_message p t payload b.message_author seqno ∷ []))

  -- `publish_lem`, with the frame as the code builds it.
  pub publishes_to_routes :
      (b : Behaviour) (topic : Topic) (payload : Bytes) (drawn : ℕ)
      (next : MessageSeqNumberGenerator) (seqno : Option ℕ) (q : PeerId)
      → IsCoherent b.router
      → SeqNo.next b.message_seqno_generator drawn ≡ returned (next, seqno)
      → let t = hash_of topic in
        let subscribed = Router.is_subscribed b.router t in
        let routes = propagation_routes b.router t in
        let frame = publication b t payload seqno in
        (b' : Behaviour) × (publish s p b topic payload drawn
          ≡ returned (b', report subscribed (is_empty routes)))
        × (sent_to q b'.swarm_out_events
            ≡ join (sent_to q b.swarm_out_events) (
                if subscribed
                  && (BTreeSet.contains q routes && can_send s b.config.max_frame_size frame)
                then contents frame
                else nothing))
        × (b'.message_seqno_generator
            ≡ (if subscribed && not (is_empty routes) then next else b.message_seqno_generator))
        × (told b'.swarm_out_events ≡ told b.swarm_out_events)
        × (b'.router ≡ b.router)
        × (b'.connections ≡ b.connections)
  unfolding publish publish_to BTreeSet.contains
  publishes_to_routes b topic payload drawn next seqno q c drew =
      let t = hash_of topic in
      let routes = propagation_routes b.router t in
      let frame = publication b t payload seqno in
      let b₁ : Behaviour = record b { message_seqno_generator = next } in
      let ascending = propagation_routes-IsAscending b.router t c in
      let (sent, quiet, same) =
        send_to_all_lem s b₁ q routes frame (BTreeSet.ascending-IsNodup routes ascending) in
      let nothing_more = sym (join-nothing (sent_to q b.swarm_out_events)) in
      elim (Bool-cases (Router.is_subscribed b.router t)) [
        | inr e ↦ (b, rw e refl, rw e nothing_more, rw e refl, refl, refl, refl)
        | inl e ↦ elim (Bool-cases (is_empty routes)) [
          | inl f ↦
              (b, rw (e, f) refl, ground (arith, nothing_more), rw (e, f) refl, refl, refl, refl)
          | inr f ↦ (
            send_to_all s b₁ routes frame,
            rw (e, f, drew) refl,
            ground (arith, sent, BTreeSet.contains-vec q routes),
            rw (e, f) same.same_generator,
            quiet,
            same.same_router,
            same.same_connections,
          )
        ]
      ]

  publication-envelope :
      (b : Behaviour) (t : TopicHash) (payload : Bytes) (seqno : Option ℕ)
      → publication b t payload seqno ≡ envelope p b t payload seqno
  unfolding into_rpc Message.new Message.set_source Message.set_sequence_number
  publication-envelope b t payload seqno = by_fields b.message_author seqno
    where
      by_fields :
          (author : Option PeerId) (n : Option ℕ)
          → into_rpc (new_with_messages (build_message p t payload author n ∷ []))
            ≡ carries (record {
              from = source_field p author;
              payload = some payload;
              seqno = number_field n;
              topic = t.hash;
              signature = none;
              key = none;
            })
      by_fields none none = refl
      by_fields none (some n) = refl
      by_fields (some a) none = refl
      by_fields (some a) (some n) = refl

  -- If the router's tables agree and the generator gives a number, `publish` returns: an error if
  -- the node is not subscribed to the topic or no peer is on its routes, and else `Ok`. Then each
  -- peer on the routes, and nobody else, is sent one message with the topic, the payload, the
  -- behaviour's author and that number in 8 bytes, if its frame can be fragmented; if it cannot,
  -- nothing is sent, and the result is `Ok` all the same. The generator moves on; after an error
  -- nothing is sent and the generator is as it was. The application is told nothing, and the
  -- router and the connections stay as they were.
  pub publish_lem :
      (b : Behaviour) (topic : Topic) (payload : Bytes) (drawn : ℕ)
      (next : MessageSeqNumberGenerator) (seqno : Option ℕ) (q : PeerId)
      → IsCoherent b.router
      → SeqNo.next b.message_seqno_generator drawn ≡ returned (next, seqno)
      → let t = hash_of topic in
        let subscribed = Router.is_subscribed b.router t in
        let routes = propagation_routes b.router t in
        let frame = envelope p b t payload seqno in
        (b' : Behaviour) × (publish s p b topic payload drawn
          ≡ returned (b', report subscribed (is_empty routes)))
        × (sent_to q b'.swarm_out_events
            ≡ join (sent_to q b.swarm_out_events) (
                if subscribed
                  && (BTreeSet.contains q routes && can_send s b.config.max_frame_size frame)
                then contents frame
                else nothing))
        × (b'.message_seqno_generator
            ≡ (if subscribed && not (is_empty routes) then next else b.message_seqno_generator))
        × (told b'.swarm_out_events ≡ told b.swarm_out_events)
        × (b'.router ≡ b.router)
        × (b'.connections ≡ b.connections)
  publish_lem b topic payload drawn next seqno q c drew =
      let t = hash_of topic in
      let (b', done, sent, moved, quiet, routed, linked) =
        publishes_to_routes b topic payload drawn next seqno q c drew in
      (
        b',
        done,
        sent
            ∙ ap
                (λ (frame : RpcProto). join (sent_to q b.swarm_out_events) (
                  if Router.is_subscribed b.router t
                    && (BTreeSet.contains q (propagation_routes b.router t)
                        && can_send s b.config.max_frame_size frame)
                  then contents frame
                  else nothing))
                (publication-envelope b t payload seqno),
        moved,
        quiet,
        routed,
        linked,
      )
