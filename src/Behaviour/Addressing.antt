-- ===== src/Behaviour/Addressing.antt =====
-- Whom floodsub/src/behaviour.rs writes to when it publishes.
use rust_libp2p_pubsub.Prelude.{
  ℕ, ◌≡◌, refl, false, ◌||◌, Option, List, [], ◌∷◌, ◌++◌, is_empty, arith, inl, inr, Bool-cases,
}
use rust_libp2p_pubsub.Prelude.Order.{ℕ-ord, same, Bytes}
use rust_libp2p_pubsub.Prelude.Outcome.{returned}
use rust_libp2p_pubsub.Libp2p.{PeerId, PeerIdBytes}
use rust_libp2p_pubsub.Topic.{Topic, hash_of}
use rust_libp2p_pubsub.Collections.Vec.{contains}
use rust_libp2p_pubsub.Router
use rust_libp2p_pubsub.Router.{propagation_routes}
use rust_libp2p_pubsub.SeqNo
use rust_libp2p_pubsub.SeqNo.{MessageSeqNumberGenerator}
use rust_libp2p_pubsub.Proto.{RpcProto}
use rust_libp2p_pubsub.Proto.Fragmentation.{Sizes, Result, fragment_rpc_message}
use rust_libp2p_pubsub.Proto.Fragmentation
use rust_libp2p_pubsub.Frame.Rpc.{new_with_messages, into_rpc}
use rust_libp2p_pubsub.Handler.Types.{send_frame, keep_alive}
use rust_libp2p_pubsub.Behaviour
use rust_libp2p_pubsub.Behaviour.{
  Behaviour, ToSwarm, generate_event, notify_handler, send_rpc_frame, send_to_all, PublishError,
}
use rust_libp2p_pubsub.Behaviour.Outgoing.{build_message, publish, publish_to}
use rust_libp2p_pubsub.Behaviour.Sending.{writes_to, send_all, queue-emit_frames}

writes_to-append :
    (q : PeerId) (xs ys : List ToSwarm)
    → writes_to q (xs ++ ys) ≡ (writes_to q xs || writes_to q ys)
unfolding writes_to
writes_to-append q [] ys = refl
writes_to-append q (generate_event m ∷ xs) ys = writes_to-append q xs ys
writes_to-append q (notify_handler p keep_alive ∷ xs) ys = writes_to-append q xs ys
writes_to-append q (notify_handler p (send_frame f) ∷ xs) ys =
    ground (arith, writes_to-append q xs ys)

writes_to-send_all :
    (q dst : PeerId) (frames : List RpcProto)
    → same q dst ≡ false
    → writes_to q (send_all dst frames) ≡ false
unfolding writes_to
writes_to-send_all q dst [] n = refl
writes_to-send_all q dst (f ∷ fs) n = ground (arith, n, writes_to-send_all q dst fs n)

module _ (s : Sizes) where
  writes_to-send_rpc_frame :
      (b : Behaviour) (q dst : PeerId) (frame : RpcProto)
      → same q dst ≡ false
      → writes_to q b.swarm_out_events ≡ false
      → writes_to q (send_rpc_frame s b dst frame).0.swarm_out_events ≡ false
  unfolding send_rpc_frame
  writes_to-send_rpc_frame b q dst frame n h =
      by_result (fragment_rpc_message s b.config.max_frame_size frame) refl
    where
      by_result :
          (r : Result (List RpcProto))
          → fragment_rpc_message s b.config.max_frame_size frame ≡ r
          → writes_to q (send_rpc_frame s b dst frame).0.swarm_out_events ≡ false
      by_result (Fragmentation.ok frames) e =
          rw (e, send_rpc_frame)
            (rw
              (
                queue-emit_frames b dst frames,
                writes_to-append q b.swarm_out_events (send_all dst frames),
                h,
              )
              (writes_to-send_all q dst frames n))
      by_result (Fragmentation.err x) e = rw (e, send_rpc_frame) h

  writes_to-send_to_all :
      (b : Behaviour) (q : PeerId) (peers : List PeerId) (frame : RpcProto)
      → contains q peers ≡ false
      → writes_to q b.swarm_out_events ≡ false
      → writes_to q (send_to_all s b peers frame).swarm_out_events ≡ false
  unfolding send_to_all contains
  writes_to-send_to_all b q [] frame n h = h
  writes_to-send_to_all b q (p ∷ ps) frame n h =
      writes_to-send_to_all (send_rpc_frame s b p frame).0 q ps frame (ground arith)
        (writes_to-send_rpc_frame b q p frame (ground arith) h)

  -- A peer that is not on the routes is not written to.
  pub writes_to-publish :
      (ids : PeerIdBytes) (b b' : Behaviour) (topic : Topic) (payload : Bytes) (drawn : ℕ)
      (generator : MessageSeqNumberGenerator) (seqno : Option ℕ)
      (result : Behaviour.Result PublishError (Unit {0})) (q : PeerId)
      → contains q (propagation_routes b.router (hash_of topic)) ≡ false
      → writes_to q b.swarm_out_events ≡ false
      → SeqNo.next b.message_seqno_generator drawn ≡ returned (generator, seqno)
      → publish s ids b topic payload drawn ≡ returned (b', result)
      → writes_to q b'.swarm_out_events ≡ false
  unfolding publish publish_to
  writes_to-publish ids b b' topic payload drawn generator seqno result q n h drew e =
      let routes = propagation_routes b.router (hash_of topic) in
      elim (Bool-cases (Router.is_subscribed b.router (hash_of topic))) [
        | inr x ↦ let there : b' ≡ b = ground (arith, e, x) in rw there h
        | inl x ↦ elim (Bool-cases (is_empty routes)) [
          | inl y ↦ let there : b' ≡ b = ground (arith, e, x, y) in rw there h
          | inr y ↦
              let frame = into_rpc (
                new_with_messages
                  (build_message ids (hash_of topic) payload b.message_author seqno ∷ [])) in
              let moved : Behaviour = record b { message_seqno_generator = generator } in
              let there : b' ≡ send_to_all s moved routes frame = ground (arith, e, x, y, drew) in
              rw there (writes_to-send_to_all moved q routes frame n h)
        ]
      ]
