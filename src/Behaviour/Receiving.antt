-- ===== src/Behaviour/Receiving.antt =====
-- What floodsub/src/behaviour.rs does with the messages it receives.
use rust_libp2p_pubsub.Prelude.{
  ℕ, ◌≡◌, refl, sym, ap, ◌∙◌, List, [], ◌∷◌, ◌++◌, is_empty, if◌then◌else◌, arith, append-nil,
  append_assoc,
}
use rust_libp2p_pubsub.Prelude.Order.{ℕ-ord, same}
use rust_libp2p_pubsub.Libp2p.{PeerId}
use rust_libp2p_pubsub.Config.{Config}
use rust_libp2p_pubsub.Collections.Vec.{IsNodup}
use rust_libp2p_pubsub.Collections.HashMap
use rust_libp2p_pubsub.Collections.VecMap.{VecMap, values}
use rust_libp2p_pubsub.Router.Invariant.{IsCoherent}
use rust_libp2p_pubsub.Proto.{RpcProto}
use rust_libp2p_pubsub.Proto.Fragmentation.{Sizes}
use rust_libp2p_pubsub.Proto.Fragmentation.Contents.{
  Contents, contents, join, nothing, join-nothing,
}
use rust_libp2p_pubsub.Frame.Message
use rust_libp2p_pubsub.Frame.Message.{Message}
use rust_libp2p_pubsub.Frame.Rpc.{new_with_messages, into_rpc}
use rust_libp2p_pubsub.Behaviour.{
  Behaviour, Event, message, generate_event, emit_behaviour_event, send_rpc_frame,
}
use rust_libp2p_pubsub.Behaviour.Incoming.{
  emit_messages, filter_subscribed, group_messages, send_groups, handle_received_messages,
}
use rust_libp2p_pubsub.Behaviour.Sending.{
  sent_to, sent_to-append, told, told-append, can_send, SameBut, unchanged, chained,
  send_rpc_frame_lem,
}
use rust_libp2p_pubsub.Behaviour.Grouping.{
  wanted, notices, group_messages-IsNodup, values-group_messages,
}

emit_messages_lem :
    (b : Behaviour) (src q : PeerId) (ms : List Message)
    → let b' = emit_messages b src ms in
      (sent_to q b'.swarm_out_events ≡ sent_to q b.swarm_out_events)
      × (told b'.swarm_out_events ≡ told b.swarm_out_events ++ notices src ms)
      × SameBut b b'
unfolding emit_messages
emit_messages_lem b src q [] = (refl, sym (append-nil (told b.swarm_out_events)), unchanged b)
emit_messages_lem b src q (m ∷ ms) =
    let event = message src (Message.topic m) m in
    let (sent, tells, same) = emit_messages_lem (emit_behaviour_event b event) src q ms in
    (
      sent
          ∙ sent_to-append q b.swarm_out_events (generate_event event ∷ [])
          ∙ (unfold sent_to in join-nothing (sent_to q b.swarm_out_events)),
      tells
          ∙ ap (λ (k : List Event). k ++ notices src ms)
              (told-append b.swarm_out_events (generate_event event ∷ []))
          ∙ (unfold told in append_assoc (told b.swarm_out_events) (event ∷ []) (notices src ms)),
      record {
        same_config = same.same_config;
        same_connections = same.same_connections;
        same_router = same.same_router;
        same_generator = same.same_generator;
        same_author = same.same_author;
      },
    )

module _ (s : Sizes) where
  abbrev frame_of : List Message → RpcProto
  frame_of ms = into_rpc (new_with_messages ms)

  -- What a peer is sent of the messages that go on to it: all, as far as they can be sent.
  abbrev pub forwarded : ℕ → List Message → Contents
  forwarded max_size ms =
      if can_send s max_size (frame_of ms) then contents (frame_of ms) else nothing

  pub forwarded-nil : (max_size : ℕ) → forwarded max_size [] ≡ nothing
  forwarded-nil max_size = unfold into_rpc in ground arith

  send_groups_lem :
      (b : Behaviour) (q : PeerId) (groups : VecMap PeerId Message)
      → IsNodup (HashMap.keys groups)
      → let b' = send_groups s b groups in
        (sent_to q b'.swarm_out_events
          ≡ join
              (sent_to q b.swarm_out_events)
              (forwarded b.config.max_frame_size (values q groups)))
        × (told b'.swarm_out_events ≡ told b.swarm_out_events)
        × SameBut b b'
  unfolding send_groups HashMap.get
  send_groups_lem b q [] n = (
    ground
        (arith, forwarded-nil b.config.max_frame_size, join-nothing (sent_to q b.swarm_out_events)),
    refl,
    unchanged b,
  )
  send_groups_lem b q ((p, ms) ∷ groups) n =
      let b₁ = (send_rpc_frame s b p (frame_of ms)).0 in
      let (sent, quiet, same₁) = send_rpc_frame_lem s b q p (frame_of ms) in
      let (sent', quiet', same₂) = send_groups_lem b₁ q groups n.1 in
      (
        ground (
          arith,
          sent,
          sent',
          ap (λ (c : Config). c.max_frame_size) same₁.same_config,
          HashMap.contains-keys p groups,
          forwarded-nil b.config.max_frame_size,
          join-nothing (sent_to q b.swarm_out_events),
          join-nothing (join (sent_to q b.swarm_out_events) (contents (frame_of ms))),
        ),
        quiet' ∙ quiet,
        chained same₁ same₂,
      )

  -- Without the early return, which changes nothing.
  handle_received_messages-eq :
      (b : Behaviour) (src : PeerId) (received : List Message)
      → let ms = filter_subscribed b.router received in
        handle_received_messages s b src received
        ≡ send_groups s (emit_messages b src ms) (group_messages b.router src ms [])
  unfolding handle_received_messages
  handle_received_messages-eq b src received = by_messages (filter_subscribed b.router received)
    where
      by_messages :
          (ms : List Message)
          → (if is_empty ms
              then b
              else send_groups s (emit_messages b src ms) (group_messages b.router src ms []))
            ≡ send_groups s (emit_messages b src ms) (group_messages b.router src ms [])
      by_messages [] = unfold emit_messages group_messages send_groups in refl
      by_messages (m ∷ ms) = refl

  -- Of the messages that it receives, a node whose router's tables agree tells the application
  -- those of the topics that it is subscribed to, in their order. It has each peer sent, in their
  -- order, those whose routes the peer is on, unless they came from that peer: all of them if the
  -- frame of them can be fragmented, and else none. Nothing but the queue of events changes.
  pub handle_received_messages_lem :
      (b : Behaviour) (src : PeerId) (received : List Message) (q : PeerId)
      → IsCoherent b.router
      → let b' = handle_received_messages s b src received in
        (sent_to q b'.swarm_out_events
          ≡ join
              (sent_to q b.swarm_out_events)
              (forwarded b.config.max_frame_size (wanted b.router src q received)))
        × (told b'.swarm_out_events
            ≡ told b.swarm_out_events ++ notices src (filter_subscribed b.router received))
        × SameBut b b'
  handle_received_messages_lem b src received q c =
      let ms = filter_subscribed b.router received in
      let groups = group_messages b.router src ms [] in
      let (sent, tells, same₁) = emit_messages_lem b src q ms in
      let b₁ = emit_messages b src ms in
      let (sent', quiet, same₂) =
        send_groups_lem b₁ q groups (group_messages-IsNodup b.router src ms [] tt) in
      let grouped : values q groups ≡ wanted b.router src q received =
        values-group_messages b.router src q received [] c ∙ (unfold HashMap.get in refl) in
      rw (handle_received_messages-eq b src received) (
        sent'
            ∙ ground
                (arith, sent, grouped, ap (λ (k : Config). k.max_frame_size) same₁.same_config),
        quiet ∙ tells,
        chained same₁ same₂,
      )
