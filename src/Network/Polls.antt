-- ===== src/Network/Polls.antt =====
-- Polls in a network of nodes of floodsub/src/behaviour.rs.
use rust_libp2p_pubsub.Prelude.{
  ◌≡◌, ◌≢◌, refl, sym, ap, ap₂, ◌∙◌, subst, Bool, ◌&&◌, List, [], ◌∷◌, ◌++◌, if◌then◌else◌, arith,
  append-nil, append_assoc, ltb,
}
use rust_libp2p_pubsub.Prelude.Order.{ℕ-ord, same}
use rust_libp2p_pubsub.Libp2p.{PeerId}
use rust_libp2p_pubsub.Topic.{TopicHash-ord}
use rust_libp2p_pubsub.Connections.Manager.Counts.{Reach}
use rust_libp2p_pubsub.Connections.Manager.{ConnectionManager}
use rust_libp2p_pubsub.Router
use rust_libp2p_pubsub.Router.Invariant.{IsCoherent}
use rust_libp2p_pubsub.Proto.{SubOptsProto, RpcProto}
use rust_libp2p_pubsub.Handler.Types.{send_frame, keep_alive}
use rust_libp2p_pubsub.Behaviour.{Behaviour, ToSwarm, generate_event, notify_handler, poll}
use rust_libp2p_pubsub.Behaviour.Sending.{sent_to}
use rust_libp2p_pubsub.Behaviour.Entries.{last_word}
use rust_libp2p_pubsub.Network.{Net, update, set_node, poll_at}
use rust_libp2p_pubsub.Network.Agreement.{
  Agrees, queued, wired, on_routes, update-at, update-off, update-same, rewired-at,
  rewired-off_source, rewired-off_target, by_node,
}

wired-append : (xs ys : List RpcProto) → wired (xs ++ ys) ≡ wired xs ++ wired ys
wired-append [] ys = refl
wired-append (x ∷ xs) ys =
    ap (λ (k : List SubOptsProto). x.subscriptions ++ k) (wired-append xs ys)
    ∙ sym (append_assoc x.subscriptions (wired xs) (wired ys))

-- The queue of a node gets shorter, and its wires may get longer.
drained-Agrees :
    (net : Net) (p : PeerId) (events : List ToSwarm) (wires : PeerId → PeerId → List RpcProto)
    → Agrees net
    → ((y : PeerId)
        → wired (wires p y) ++ (sent_to y events).subscriptions
          ≡ wired (net.wires p y) ++ queued y (net.nodes p))
    → ((x : PeerId) → x ≢ p → (y : PeerId) → wires x y ≡ net.wires x y)
    → Agrees (record (set_node net p (record (net.nodes p) { swarm_out_events = events })) {
      wires = wires;
    })
drained-Agrees net p events wires h here there =
    let b : Behaviour = record (net.nodes p) { swarm_out_events = events } in
    record {
      coherent = λ x.
          subst IsCoherent (sym (update-same (λ (a : Behaviour). a.router) p x b net.nodes refl))
            (h.coherent x);
      counted = λ x.
          subst (λ (m : ConnectionManager). Reach m (net.links x))
            (sym (update-same (λ (a : Behaviour). a.connections) p x b net.nodes refl))
            (h.counted x);
      says = λ x y t e.
          let routed : on_routes (update p b net.nodes y) x t ≡ on_routes (net.nodes y) x t =
            update-same (λ (a : Behaviour). on_routes a x t) p y b net.nodes refl in
          let moved : wired (wires x y) ++ queued y (update p b net.nodes x)
              ≡ wired (net.wires x y) ++ queued y (net.nodes x) =
            by_node
              (λ z.
                wired (wires z y) ++ queued y (update p b net.nodes z)
                ≡ wired (net.wires z y) ++ queued y (net.nodes z))
              p (rw (update-at p b net.nodes) (here y))
              (λ z d. rw (update-off p b net.nodes z d, there z d y) refl) x in
          ap₂ (λ (k : List SubOptsProto) (r : Bool). last_word k t r) moved routed
          ∙ h.says x y t e
          ∙ ap (λ (k : Bool). ltb 0 (net.links x y) && k)
              (sym (
                update-same (λ (a : Behaviour). Router.is_subscribed a.router t) p x b net.nodes
                  refl));
    }

sent_first :
    (q z : PeerId) (frame : RpcProto) (events : List ToSwarm)
    → (sent_to z (notify_handler q (send_frame frame) ∷ events)).subscriptions ≡ (
        if same z q
        then frame.subscriptions ++ (sent_to z events).subscriptions
        else (sent_to z events).subscriptions)
unfolding sent_to
sent_first q z frame events = ground arith

-- A poll moves a frame from the queue to a wire, or drops an event that is no frame.
pub poll-Agrees : (net : Net) (p : PeerId) → Agrees net → Agrees (poll_at net p)
unfolding poll_at poll
poll-Agrees net p h = by_queue (net.nodes p).swarm_out_events refl
  where
    by_queue :
        (events : List ToSwarm) → (net.nodes p).swarm_out_events ≡ events → Agrees (poll_at net p)
    by_queue [] e =
        rw (e, poll)
          (drained-Agrees net p (net.nodes p).swarm_out_events net.wires h (λ y. refl)
            (λ x d y. refl))
    by_queue (generate_event m ∷ events) e =
        rw (e, poll)
          (drained-Agrees net p events net.wires h (λ y. rw e (unfold sent_to in refl))
            (λ x d y. refl))
    by_queue (notify_handler q keep_alive ∷ events) e =
        rw (e, poll)
          (drained-Agrees net p events net.wires h (λ y. rw e (unfold sent_to in refl))
            (λ x d y. refl))
    by_queue (notify_handler q (send_frame frame) ∷ events) e =
        let frames = net.wires p q ++ frame ∷ [] in
        let wires = update p (update q frames (net.wires p)) net.wires in
        rw (e, poll)
          (drained-Agrees net p events wires h
            (λ y.
              by_node
                (λ z.
                  wired (wires p z) ++ (sent_to z events).subscriptions
                  ≡ wired (net.wires p z) ++ queued z (net.nodes p))
                q
                (rw
                  (
                    rewired-at p q frames net.wires,
                    e,
                    sent_first q q frame events,
                    wired-append (net.wires p q) (frame ∷ []),
                  )
                  (ground (
                    arith,
                    append-nil frame.subscriptions,
                    append_assoc (wired (net.wires p q)) frame.subscriptions
                        (sent_to q events).subscriptions,
                  )))
                (λ z d.
                  rw (rewired-off_target p q frames net.wires p z d, e, sent_first q z frame events)
                    (ground (arith, d)))
                y)
            (λ x d y. rewired-off_source p q frames net.wires x y d))
