-- ===== src/Network/Receptions.antt =====
-- Frames that come in, in a network of nodes of floodsub/src/behaviour.rs.
use rust_libp2p_pubsub.Prelude.{
  ◌≡◌, refl, sym, ap, ◌∙◌, subst, Bool, ◌&&◌, List, [], ◌∷◌, ◌++◌, if◌then◌else◌, arith, append-nil,
  append_assoc, ltb,
}
use rust_libp2p_pubsub.Prelude.Order.{ℕ-ord, same}
use rust_libp2p_pubsub.Prelude.Outcome.{returned}
use rust_libp2p_pubsub.Libp2p.{PeerId, PeerIdBytes}
use rust_libp2p_pubsub.Topic.{TopicHash, from_raw, TopicHash-ord}
use rust_libp2p_pubsub.Connections.Manager.Counts.{Reach}
use rust_libp2p_pubsub.Connections.Manager.{ConnectionManager}
use rust_libp2p_pubsub.Router
use rust_libp2p_pubsub.Router.Invariant.{IsCoherent}
use rust_libp2p_pubsub.Proto.{SubOptsProto, RpcProto}
use rust_libp2p_pubsub.Proto.Fragmentation.{Sizes}
use rust_libp2p_pubsub.Proto.Fragmentation.Contents.{Contents}
use rust_libp2p_pubsub.Behaviour.{Behaviour}
use rust_libp2p_pubsub.Behaviour.Incoming.{on_received_rpc_frame, convert_messages}
use rust_libp2p_pubsub.Behaviour.Grouping.{wanted}
use rust_libp2p_pubsub.Behaviour.Entries.{last_word}
use rust_libp2p_pubsub.Behaviour.Frames.{handles_frame}
use rust_libp2p_pubsub.Behaviour.Untouched.{on_received_rpc_frame-SameNode}
use rust_libp2p_pubsub.Network.{Net, update, set_node, set_wire, receive_at}
use rust_libp2p_pubsub.Network.Words.{last_word-append, forwarded-subscriptions}
use rust_libp2p_pubsub.Network.Agreement.{
  Agrees, queued, wired, on_routes, word, update-at, update-off, update-same, rewired-at,
  rewired-off_source, rewired-off_target, by_node,
}

-- What the first frame says may be heeded before or with the rest.
first_word :
    (frame : RpcProto) (frames : List RpcProto) (rest : List SubOptsProto) (t : TopicHash)
    (after before : Bool)
    → after ≡ last_word frame.subscriptions t before
    → last_word (wired frames ++ rest) t after ≡ last_word (wired (frame ∷ frames) ++ rest) t before
first_word frame frames rest t after before e =
    ap (last_word (wired frames ++ rest) t) e
    ∙ sym (last_word-append frame.subscriptions (wired frames ++ rest) t before)
    ∙ ap (λ (k : List SubOptsProto). last_word k t before)
        (sym (append_assoc frame.subscriptions (wired frames) rest))

module _ (s : Sizes) (ids : PeerIdBytes) where
  received-IsCoherent :
      (net : Net) (p q : PeerId) (frame : RpcProto) (b : Behaviour)
      → Agrees net
      → on_received_rpc_frame s ids (net.nodes q) p frame ≡ returned b
      → IsCoherent b.router
  received-IsCoherent net p q frame b h e =
      let (b', r, tells, sent, routes, c) =
        handles_frame s ids (net.nodes q) p frame 0 (from_raw []) (h.coherent q) in
      let there : b ≡ b' = cc in rw there c

  received_routes :
      (net : Net) (p q : PeerId) (frame : RpcProto) (b : Behaviour) (x : PeerId) (t : TopicHash)
      → Agrees net
      → on_received_rpc_frame s ids (net.nodes q) p frame ≡ returned b
      → (queued x b ≡ queued x (net.nodes q))
        × (on_routes b x t ≡ (
            if same x p
            then last_word frame.subscriptions t (on_routes (net.nodes q) x t)
            else on_routes (net.nodes q) x t))
  received_routes net p q frame b x t h e =
      let (b', r, tells, sent, routes, c) =
        handles_frame s ids (net.nodes q) p frame x t (h.coherent q) in
      let there : b ≡ b' = cc in
      let passed =
        wanted (net.nodes q).router p x (convert_messages ids.from_bytes frame.publish) in
      let quiet =
        ap (λ (k : List SubOptsProto). queued x (net.nodes q) ++ k)
          (forwarded-subscriptions s (net.nodes q).config.max_frame_size passed)
        ∙ append-nil (queued x (net.nodes q)) in
      (rw there (ap (λ (k : Contents). k.subscriptions) sent ∙ quiet), rw there routes)

  -- What is under way says the same before and after.
  received_words :
      (net : Net) (p q : PeerId) (frame : RpcProto) (frames : List RpcProto) (b : Behaviour)
      → Agrees net
      → net.wires p q ≡ frame ∷ frames
      → on_received_rpc_frame s ids (net.nodes q) p frame ≡ returned b
      → (x y : PeerId) (t : TopicHash)
      → word (set_wire (set_node net q b) p q frames) x y t ≡ word net x y t
  received_words net p q frame frames b h w e x y t =
      let quiet : (a c : PeerId) → queued c (update q b net.nodes a) ≡ queued c (net.nodes a) =
        λ a c. update-same (queued c) q a b net.nodes (received_routes net p q frame b c t h e).0 in
      let net' = set_wire (set_node net q b) p q frames in
      by_node (λ c. (a : PeerId) → word net' a c t ≡ word net a c t) q
        (by_node (λ a. word net' a q t ≡ word net a q t) p
          (rw (rewired-at p q frames net.wires, quiet p q, update-at q b net.nodes)
            (rw w (
              first_word frame frames (queued q (net.nodes p)) t (on_routes b p t)
                (on_routes (net.nodes q) p t)
                ((received_routes net p q frame b p t h e).1 ∙ ground arith))))
          (λ a d.
            rw (rewired-off_source p q frames net.wires a q d, quiet a q, update-at q b net.nodes)
              (ap (last_word (wired (net.wires a q) ++ queued q (net.nodes a)) t)
                ((received_routes net p q frame b a t h e).1 ∙ ground (arith, d)))))
        (λ c d a.
          rw
            (rewired-off_target p q frames net.wires a c d, quiet a c, update-off q b net.nodes c d)
            refl)
        y x

  received-Agrees :
      (net : Net) (p q : PeerId) (frame : RpcProto) (frames : List RpcProto) (b : Behaviour)
      → Agrees net
      → net.wires p q ≡ frame ∷ frames
      → on_received_rpc_frame s ids (net.nodes q) p frame ≡ returned b
      → Agrees (set_wire (set_node net q b) p q frames)
  received-Agrees net p q frame frames b h w e =
      let same = on_received_rpc_frame-SameNode s ids (net.nodes q) b p frame (h.coherent q) e in
      record {
        coherent =
            by_node (λ x. IsCoherent (update q b net.nodes x).router) q
              (rw (update-at q b net.nodes) (received-IsCoherent net p q frame b h e))
              (λ x d. rw (update-off q b net.nodes x d) (h.coherent x));
        counted = λ x.
            subst (λ (m : ConnectionManager). Reach m (net.links x))
              (sym (
                update-same (λ (a : Behaviour). a.connections) q x b net.nodes
                  same.same_connections))
              (h.counted x);
        says = λ x y t empty.
            received_words net p q frame frames b h w e x y t
            ∙ h.says x y t empty
            ∙ ap (λ (k : Bool). ltb 0 (net.links x y) && k)
                (sym (
                  update-same (λ (a : Behaviour). Router.is_subscribed a.router t) q x b net.nodes
                    (same.same_own t)));
      }

  -- A node handles the first of the frames, if any, without a panic.
  pub receive-Agrees :
      (net : Net) (p q : PeerId)
      → Agrees net
      → (net' : Net) × (receive_at s ids net p q ≡ returned net') × Agrees net'
  unfolding receive_at
  receive-Agrees net p q h = by_wire (net.wires p q) refl
    where
      by_wire :
          (frames : List RpcProto)
          → net.wires p q ≡ frames
          → (net' : Net) × (receive_at s ids net p q ≡ returned net') × Agrees net'
      by_wire [] w = (net, rw w refl, h)
      by_wire (frame ∷ frames) w =
          let (b, r, tells, sent, routes, c) =
            handles_frame s ids (net.nodes q) p frame 0 (from_raw []) (h.coherent q) in
          (
            set_wire (set_node net q b) p q frames,
            rw (w, r) refl,
            received-Agrees net p q frame frames b h w r,
          )
