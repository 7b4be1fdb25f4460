-- ===== src/Network/Hops.antt =====
-- A message that a node of floodsub/src/behaviour.rs passes on to the next.
use rust_libp2p_pubsub.Prelude.{
  ◌≡◌, ◌≢◌, refl, sym, ap, ◌∙◌, true, some, List, [], ◌∷◌, ◌++◌, length,
}
use rust_libp2p_pubsub.Prelude.Order.{ℕ-ord, same}
use rust_libp2p_pubsub.Prelude.Outcome.{Outcome, returned, ◌>>=◌}
use rust_libp2p_pubsub.Libp2p.{PeerId, PeerIdBytes}
use rust_libp2p_pubsub.Collections.HashMap
use rust_libp2p_pubsub.Collections.VecMap.{add}
use rust_libp2p_pubsub.Router
use rust_libp2p_pubsub.Router.{propagation_routes}
use rust_libp2p_pubsub.Proto.{RpcProto}
use rust_libp2p_pubsub.Proto.Validation.{is_ok, validate_message_proto}
use rust_libp2p_pubsub.Proto.Fragmentation
use rust_libp2p_pubsub.Proto.Fragmentation.{Sizes, fragment_rpc_message}
use rust_libp2p_pubsub.Frame.Message
use rust_libp2p_pubsub.Frame.Message.{Message}
use rust_libp2p_pubsub.Frame.Rpc.{new_with_messages, into_rpc, validate-into_rpc}
use rust_libp2p_pubsub.Handler.Types.{send_frame}
use rust_libp2p_pubsub.Behaviour.{
  Behaviour, ToSwarm, message, generate_event, notify_handler, send_rpc_frame, emit_frames, poll,
}
use rust_libp2p_pubsub.Behaviour.Incoming.{
  on_received_rpc_frame, convert_subscriptions, handle_received_messages,
  handle_received_subscriptions, filter_subscribed, emit_messages, next_hops, push_to_all,
  group_messages, send_groups,
}
use rust_libp2p_pubsub.Behaviour.Assertions.{conversions_hold_lem, routes_hold-filter_subscribed}
use rust_libp2p_pubsub.Behaviour.Network.{converted}
use rust_libp2p_pubsub.Network.{Net, carry, update, set_node, set_wire, poll_at, receive_at}
use rust_libp2p_pubsub.Network.Agreement.{update-at, update-off, by_node, rewired-off_source}
use rust_libp2p_pubsub.Network.Exchange.{polls_at}

abbrev pub with_events : Behaviour → List ToSwarm → Behaviour
with_events b events = record b { swarm_out_events = events }

-- A poll of a node that has just been given its queue.
polled :
    (net : Net) (q : PeerId) (b : Behaviour) (event : ToSwarm) (events : List ToSwarm)
    → poll_at (set_node net q (with_events b (event ∷ events))) q
      ≡ carry
          (set_node (set_node net q (with_events b (event ∷ events))) q (with_events b events))
          q
          (some event)
unfolding poll_at poll
polled net q b event events = rw (update-at q (with_events b (event ∷ events)) net.nodes) refl

-- A node is as it was once its queue is.
restored :
    (nodes : PeerId → Behaviour) (q : PeerId) (a b : Behaviour)
    → (nodes q).swarm_out_events ≡ []
    → update q (with_events (nodes q) []) (update q a (update q b nodes)) ≡ nodes
restored nodes q a b quiet = λ i x.
    by_node (λ z. update q (with_events (nodes q) []) (update q a (update q b nodes)) z ≡ nodes z) q
      (update-at q (with_events (nodes q) []) (update q a (update q b nodes))
        ∙ (λ j. with_events (nodes q) (sym quiet j)))
      (λ z d.
        update-off q (with_events (nodes q) []) (update q a (update q b nodes)) z d
        ∙ update-off q a (update q b nodes) z d
        ∙ update-off q b nodes z d)
      x i

module _ (s : Sizes) (ids : PeerIdBytes) where
  -- A node that passes a message from one neighbour on to another, and to no other, in one frame,
  -- and has nothing else to say.
  pub record PassesOn (b : Behaviour) (src next : PeerId) (m : Message) : Type 0 where
    pub subscribed : Router.is_subscribed b.router (Message.topic m) ≡ true
    pub hops : next_hops src (propagation_routes b.router (Message.topic m)) ≡ next ∷ []
    pub fits :
        fragment_rpc_message s b.config.max_frame_size (into_rpc (new_with_messages (m ∷ [])))
        ≡ Fragmentation.ok (into_rpc (new_with_messages (m ∷ [])) ∷ [])
    pub quiet : b.swarm_out_events ≡ []

  -- What such a node queues for a message.
  passed_on :
      (b : Behaviour) (src next : PeerId) (m : Message)
      → PassesOn b src next m
      → handle_received_messages s b src (m ∷ []) ≡ record b {
        swarm_out_events =
            generate_event (message src (Message.topic m) m)
            ∷ notify_handler next (send_frame (into_rpc (new_with_messages (m ∷ []))))
            ∷ [];
      }
  unfolding handle_received_messages filter_subscribed emit_messages group_messages push_to_all
      send_groups send_rpc_frame emit_frames add HashMap.get HashMap.insert
  passed_on b src next m h =
      rw (h.subscribed) (rw (h.hops) (rw (h.fits, send_groups) (rw (h.quiet) refl)))

  -- A valid message in a frame of its own, handled by such a node.
  pub handled :
      (b : Behaviour) (src next : PeerId) (m : Message)
      → PassesOn b src next m
      → is_ok (validate_message_proto ids.from_bytes m.proto) ≡ true
      → Message.from_proto m.proto ≡ m
      → on_received_rpc_frame s ids b src (into_rpc (new_with_messages (m ∷ [])))
        ≡ returned (record b {
          swarm_out_events =
              generate_event (message src (Message.topic m) m)
              ∷ notify_handler next (send_frame (into_rpc (new_with_messages (m ∷ []))))
              ∷ [];
        })
  unfolding on_received_rpc_frame convert_subscriptions handle_received_subscriptions into_rpc
  handled b src next m h valid same =
      rw
        (
          validate-into_rpc (new_with_messages (m ∷ [])),
          converted ids m valid same,
          conversions_hold_lem ids (into_rpc (new_with_messages (m ∷ []))).publish,
          routes_hold-filter_subscribed b.router (m ∷ []),
          passed_on b src next m h,
        )
        refl

  -- One hop: a node handles the first frame on the wire from another, and its swarm polls it until it
  -- has no event left.
  unfoldable pub hop : Net → PeerId → PeerId → Outcome Net
  hop net p q = receive_at s ids net p q >>= λ net'.
      returned (polls_at (length (net'.nodes q).swarm_out_events) net' q)

  pub hop_lem :
      (net : Net) (p q r : PeerId) (m : Message)
      → PassesOn (net.nodes q) p r m
      → is_ok (validate_message_proto ids.from_bytes m.proto) ≡ true
      → Message.from_proto m.proto ≡ m
      → q ≢ p
      → net.wires p q ≡ into_rpc (new_with_messages (m ∷ [])) ∷ []
      → net.wires q r ≡ []
      → hop net p q
        ≡ returned (set_wire (set_wire net p q []) q r (into_rpc (new_with_messages (m ∷ [])) ∷ []))
  unfolding hop receive_at polls_at poll_at poll
  hop_lem net p q r m h valid same d w empty =
      let frame = into_rpc (new_with_messages (m ∷ [])) in
      let told = generate_event (message p (Message.topic m) m) in
      let sends = notify_handler r (send_frame frame) in
      let b = with_events (net.nodes q) (told ∷ sends ∷ []) in
      let b₁ = with_events (net.nodes q) (sends ∷ []) in
      let net₁ = set_wire net p q [] in
      let emptied : net₁.wires q r ++ frame ∷ [] ≡ frame ∷ [] =
        ap (λ (k : List RpcProto). k ++ frame ∷ [])
          (rewired-off_source p q [] net.wires q r d ∙ empty) in
      rw (w, handled (net.nodes q) p r m h valid same)
        (rw (update-at q b net.nodes) (
          ap returned (
            ap (λ (n : Net). poll_at n q) (polled net₁ q (net.nodes q) told (sends ∷ []))
            ∙ polled (set_node net₁ q b) q (net.nodes q) sends []
            ∙ (λ i. record net {
              nodes = restored net.nodes q b₁ b h.quiet i;
              wires = update q (update r (emptied i) (net₁.wires q)) net₁.wires;
            }))))
