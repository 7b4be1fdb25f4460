-- ===== src/Behaviour/Frames.antt =====
-- `on_received_rpc_frame` of floodsub/src/behaviour.rs: what a frame that comes in does.
use rust_libp2p_pubsub.Prelude.{
  ◌≡◌, refl, sym, ap, ◌∙◌, subst, Bool, true, false, not, ◌&&◌, Option, none, some, List, [], ◌∷◌,
  ◌++◌, map, is_empty, if◌then◌else◌, arith, append-nil, inl, inr, Bool-cases,
}
use rust_libp2p_pubsub.Prelude.Order.{ℕ-ord, same, Bytes}
use rust_libp2p_pubsub.Prelude.Outcome.{returned}
use rust_libp2p_pubsub.Libp2p.{PeerId, PeerIdBytes}
use rust_libp2p_pubsub.Topic.{TopicHash, TopicHash-ord}
use rust_libp2p_pubsub.Collections.BTreeSet
use rust_libp2p_pubsub.Router.{Router, propagation_routes}
use rust_libp2p_pubsub.Router.Invariant.{IsCoherent}
use rust_libp2p_pubsub.Router.Refinement.{
  contains_routes, run, Call, run_relation, run-IsCoherent, spec_peer_run,
}
use rust_libp2p_pubsub.Proto.{RpcProto, MessageProto}
use rust_libp2p_pubsub.Proto.Validation.{is_ok, validate_rpc_proto, validate_message_proto}
use rust_libp2p_pubsub.Proto.Fragmentation.{Sizes}
use rust_libp2p_pubsub.Proto.Fragmentation.Contents.{join, join-nothing}
use rust_libp2p_pubsub.Frame.Message
use rust_libp2p_pubsub.Frame.Message.{Message}
use rust_libp2p_pubsub.Prelude.{length, ◌==◌}
use rust_libp2p_pubsub.Behaviour.{Behaviour}
use rust_libp2p_pubsub.Behaviour.Incoming.{
  filter_subscribed, handle_received_messages, handle_received_subscriptions, convert_messages,
  on_received_rpc_frame,
}
use rust_libp2p_pubsub.Behaviour.Sending.{sent_to, told}
use rust_libp2p_pubsub.Behaviour.Receiving.{forwarded, forwarded-nil, handle_received_messages_lem}
use rust_libp2p_pubsub.Behaviour.Assertions.{conversions_hold_lem, routes_hold-filter_subscribed}
use rust_libp2p_pubsub.Behaviour.Grouping.{wanted, notices}
use rust_libp2p_pubsub.Behaviour.Entries.{
  last_word, as_call, convert_subscriptions_lem, router-handle_received_subscriptions,
}

routes-run :
    (r : Router) (cs : List Call) (q : PeerId) (t : TopicHash)
    → IsCoherent r
    → BTreeSet.contains q (propagation_routes (run r cs) t)
      ≡ spec_peer_run cs q t (BTreeSet.contains q (propagation_routes r t))
routes-run r cs q t c =
    contains_routes (run r cs) t q
    ∙ sym ((run-IsCoherent r cs c).agree q t)
    ∙ run_relation r cs q t
    ∙ ap (spec_peer_run cs q t) (c.agree q t ∙ sym (contains_routes r t q))

rejected-empty :
    (frame : RpcProto)
    → is_ok (validate_rpc_proto frame) ≡ false
    → (frame.publish ≡ []) × (frame.subscriptions ≡ [])
unfolding validate_rpc_proto
rejected-empty frame v = ground arith

-- Whether a message may be told: its topic is not empty, its source, if any, is a peer id, and its
-- number, if any, has 8 bytes.
abbrev is_peer : Option PeerId → Bool
is_peer none = false
is_peer (some peer) = true

abbrev names_peer : (Bytes → Option PeerId) → Option Bytes → Bool
names_peer from_bytes none = true
names_peer from_bytes (some source) = is_peer (from_bytes source)

abbrev is_number : Option Bytes → Bool
is_number none = true
is_number (some number) = length number == 8

abbrev pub is_acceptable : (Bytes → Option PeerId) → MessageProto → Bool
is_acceptable from_bytes m =
    not (is_empty m.topic) && (names_peer from_bytes m.from && is_number m.seqno)

-- The messages that may be told, converted.
abbrev pub accepted : (Bytes → Option PeerId) → List MessageProto → List Message
accepted from_bytes [] = []
accepted from_bytes (m ∷ ms) =
    if is_acceptable from_bytes m
    then Message.from_proto m ∷ accepted from_bytes ms
    else accepted from_bytes ms

validate-is_acceptable :
    (from_bytes : Bytes → Option PeerId) (m : MessageProto)
    → is_ok (validate_message_proto from_bytes m) ≡ is_acceptable from_bytes m
unfolding validate_message_proto
validate-is_acceptable from_bytes m = ground arith

convert_messages-accepted :
    (from_bytes : Bytes → Option PeerId) (ms : List MessageProto)
    → convert_messages from_bytes ms ≡ accepted from_bytes ms
unfolding convert_messages
convert_messages-accepted from_bytes [] = refl
convert_messages-accepted from_bytes (m ∷ ms) =
    ground (arith, validate-is_acceptable from_bytes m, convert_messages-accepted from_bytes ms)

module _ (s : Sizes) (p : PeerIdBytes) where
  -- `on_received_rpc_frame_lem`, with the messages as the code converts them.
  pub handles_frame :
      (b : Behaviour) (src : PeerId) (frame : RpcProto) (q : PeerId) (t : TopicHash)
      → IsCoherent b.router
      → let received = convert_messages p.from_bytes frame.publish in
        (b' : Behaviour) × (on_received_rpc_frame s p b src frame ≡ returned b')
        × (told b'.swarm_out_events
            ≡ told b.swarm_out_events ++ notices src (filter_subscribed b.router received))
        × (sent_to q b'.swarm_out_events
            ≡ join
                (sent_to q b.swarm_out_events)
                (forwarded s b.config.max_frame_size (wanted b.router src q received)))
        × (BTreeSet.contains q (propagation_routes b'.router t) ≡ (
            let before = BTreeSet.contains q (propagation_routes b.router t) in
            if same q src then last_word frame.subscriptions t before else before))
        × IsCoherent b'.router
  unfolding on_received_rpc_frame
  handles_frame b src frame q t c =
      let received = convert_messages p.from_bytes frame.publish in
      let b₁ = handle_received_messages s b src received in
      let (sent, tells, same₁) = handle_received_messages_lem s b src received q c in
      let (actions, e, says) = convert_subscriptions_lem frame.subscriptions src q t in
      let b₂ = handle_received_subscriptions b₁ src actions in
      let calls = map (as_call src) actions in
      let (routed, queued) = router-handle_received_subscriptions b₁ src actions in
      let same_router : b₂.router ≡ run b.router calls =
        routed ∙ ap (λ (r : Router). run r calls) same₁.same_router in
      elim (Bool-cases (is_ok (validate_rpc_proto frame))) [
        | inl v ↦ (
          b₂,
          rw
              (
                v,
                e,
                conversions_hold_lem p frame.publish,
                routes_hold-filter_subscribed b.router received,
              )
              refl,
          ap told queued ∙ tells,
          ap (sent_to q) queued ∙ sent,
          ap (λ (r : Router). BTreeSet.contains q (propagation_routes r t)) same_router
              ∙ routes-run b.router calls q t c
              ∙ says (BTreeSet.contains q (propagation_routes b.router t)),
          subst IsCoherent (sym same_router) (run-IsCoherent b.router calls c),
        )
        | inr v ↦
            let (no_messages, no_subscriptions) = rejected-empty frame v in
            (
              b,
              rw v refl,
              rw no_messages (
                  unfold convert_messages filter_subscribed in
                  sym (append-nil (told b.swarm_out_events))),
              rw no_messages (
                  unfold convert_messages wanted in
                  ground (
                    arith,
                    forwarded-nil s b.config.max_frame_size,
                    join-nothing (sent_to q b.swarm_out_events),
                  )),
              rw no_subscriptions (ground arith),
              c,
            )
      ]

  -- If the router's tables agree, a frame from a peer, valid or not, is handled without a panic,
  -- and they agree again. Of its messages those are accepted whose topic is not empty, whose
  -- source, if any, is a peer id and whose number, if any, has 8 bytes. The application is told
  -- the accepted messages of the topics that the node is subscribed to, in their order; each peer
  -- but the sender is sent those whose routes it was on before the frame, if they can be
  -- fragmented. Afterwards the sender is on the routes of a topic if the last valid subscription
  -- of the frame on that topic says so, or if there is none and it was before; the other peers are
  -- on the routes that they were on.
  pub on_received_rpc_frame_lem :
      (b : Behaviour) (src : PeerId) (frame : RpcProto) (q : PeerId) (t : TopicHash)
      → IsCoherent b.router
      → let received = accepted p.from_bytes frame.publish in
        (b' : Behaviour) × (on_received_rpc_frame s p b src frame ≡ returned b')
        × (told b'.swarm_out_events
            ≡ told b.swarm_out_events ++ notices src (filter_subscribed b.router received))
        × (sent_to q b'.swarm_out_events
            ≡ join
                (sent_to q b.swarm_out_events)
                (forwarded s b.config.max_frame_size (wanted b.router src q received)))
        × (BTreeSet.contains q (propagation_routes b'.router t) ≡ (
            let before = BTreeSet.contains q (propagation_routes b.router t) in
            if same q src then last_word frame.subscriptions t before else before))
        × IsCoherent b'.router
  on_received_rpc_frame_lem b src frame q t c =
      rw (sym (convert_messages-accepted p.from_bytes frame.publish))
        (handles_frame b src frame q t c)
