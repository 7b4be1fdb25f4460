-- ===== src/Network/Exchange.antt =====
-- A poll of a node of floodsub/src/behaviour.rs, and the handling of the frame that comes of it.
use rust_libp2p_pubsub.Prelude.{
  ℕ, Option, some, ap₂, zero, suc, ◌≡◌, ◌≢◌, refl, ap, ◌∙◌, List, [], ◌∷◌,
}
use rust_libp2p_pubsub.Prelude.Outcome.{Outcome, returned, ◌>>=◌}
use rust_libp2p_pubsub.Libp2p.{PeerId, PeerIdBytes}
use rust_libp2p_pubsub.Topic.{TopicHash, from_raw}
use rust_libp2p_pubsub.Proto.{RpcProto}
use rust_libp2p_pubsub.Proto.Fragmentation.{Sizes}
use rust_libp2p_pubsub.Handler.Types.{send_frame, keep_alive}
use rust_libp2p_pubsub.Behaviour.{Behaviour, ToSwarm, generate_event, notify_handler, poll}
use rust_libp2p_pubsub.Behaviour.Frames.{handles_frame}
use rust_libp2p_pubsub.Network.{Net, set_node, set_wire, poll_at, receive_at}
use rust_libp2p_pubsub.Network.Reachable.{Reachable, next, polls, receives}
use rust_libp2p_pubsub.Network.Agreement.{update-at, update-off, rewired-at}
use rust_libp2p_pubsub.Network.Convergence.{Reachable-Agrees}
use rust_libp2p_pubsub.Network.Hearing.{heard, heard-nil}
use rust_libp2p_pubsub.Behaviour.{Event}
use rust_libp2p_pubsub.Behaviour.Sending.{sent_to, told}
use rust_libp2p_pubsub.Behaviour.Untouched.{on_received_rpc_frame-SameNode}
use rust_libp2p_pubsub.Prelude.{sym, ◌++◌, append-nil, arith}
use rust_libp2p_pubsub.Network.Agreement.{by_node, rewired-off_target}
use rust_libp2p_pubsub.Prelude.{true, false, some}
use rust_libp2p_pubsub.Prelude.Order.{ℕ-ord}
use rust_libp2p_pubsub.Prelude.{subst}
use rust_libp2p_pubsub.Router
use rust_libp2p_pubsub.Behaviour.Frames.{handles_frame}
use rust_libp2p_pubsub.Proto.{MessageProto}
use rust_libp2p_pubsub.Network.Reachable.{may_hand_on}
use rust_libp2p_pubsub.Behaviour.Sending.{writes_to}

-- A node is polled so many times.
unfoldable pub polls_at : ℕ → Net → PeerId → Net
polls_at zero net p = net
polls_at (suc k) net p = polls_at k (poll_at net p) p

module _ (s : Sizes) (ids : PeerIdBytes) where
  -- The frame that a poll has handed on is handled.
  abbrev arrive : Net → PeerId → Option ToSwarm → Outcome Net
  arrive net p (some (notify_handler q (send_frame frame))) = receive_at s ids net p q
  arrive net p _ = returned net

  -- A node is polled, and the frame that comes of it, if any, is handled.
  unfoldable pub exchange_at : Net → PeerId → Outcome Net
  unfolding poll
  exchange_at net p = arrive (poll_at net p) p (poll (net.nodes p)).1

  unfoldable pub exchanges_at : ℕ → Net → PeerId → Outcome Net
  exchanges_at zero net p = returned net
  exchanges_at (suc k) net p = exchange_at net p >>= λ net'. exchanges_at k net' p

  -- What the network is after a node has been polled for some of its events, and these are left.
  pub record Exchanged (net net' : Net) (p : PeerId) (events left : List ToSwarm) : Type 0 where
    pub reachable : Reachable s ids net'
    pub queue : (net'.nodes p).swarm_out_events ≡ left
    pub clear : (q : PeerId) → net'.wires p q ≡ []
    pub same_router : (net'.nodes p).router ≡ (net.nodes p).router
    pub same_links : net'.links ≡ net.links
    pub same_own :
        (q : PeerId) (t : TopicHash)
        → q ≢ p
        → Router.is_subscribed (net'.nodes q).router t ≡ Router.is_subscribed (net.nodes q).router t
    pub tells :
        (q : PeerId)
        → q ≢ p
        → told (net'.nodes q).swarm_out_events
          ≡ told (net.nodes q).swarm_out_events
            ++ heard ids (net.nodes q) p (sent_to q events).publish

  -- An event that is no frame.
  dropped :
      (net : Net) (p : PeerId) (event : ToSwarm) (events : List ToSwarm)
      → ((q : PeerId) → net.wires p q ≡ [])
      → ((q : PeerId) → (sent_to q (event ∷ [])).publish ≡ [])
      → Reachable s ids (set_node net p (record (net.nodes p) { swarm_out_events = events }))
      → Exchanged net
          (set_node net p (record (net.nodes p) { swarm_out_events = events }))
          p
          (event ∷ [])
          events
  dropped net p event events clear mute r =
      let b : Behaviour = record (net.nodes p) { swarm_out_events = events } in
      record {
        reachable = r;
        queue = ap (λ (c : Behaviour). c.swarm_out_events) (update-at p b net.nodes);
        clear = clear;
        same_router = ap (λ (c : Behaviour). c.router) (update-at p b net.nodes);
        same_links = refl;
        same_own = λ q t d.
            ap (λ (c : Behaviour). Router.is_subscribed c.router t) (update-off p b net.nodes q d);
        tells = λ q d.
            ap (λ (c : Behaviour). told c.swarm_out_events) (update-off p b net.nodes q d)
            ∙ sym (append-nil (told (net.nodes q).swarm_out_events))
            ∙ ap (λ (k : List Event). told (net.nodes q).swarm_out_events ++ k)
                (sym (heard-nil ids (net.nodes q) p))
            ∙ ap
                (λ (ms : List MessageProto).
                  told (net.nodes q).swarm_out_events ++ heard ids (net.nodes q) p ms)
                (sym (mute q));
      }

  -- A frame to another node.
  handed :
      (net : Net) (p q : PeerId) (frame : RpcProto) (events : List ToSwarm)
      → Reachable s ids net
      → (net.nodes p).swarm_out_events ≡ notify_handler q (send_frame frame) ∷ events
      → q ≢ p
      → ((r : PeerId) → net.wires p r ≡ [])
      → (net' : Net) × (exchange_at net p ≡ returned net')
        × Exchanged net net' p (notify_handler q (send_frame frame) ∷ []) events
  unfolding exchange_at poll_at poll receive_at sent_to
  handed net p q frame events r e d clear =
      let b : Behaviour = record (net.nodes p) { swarm_out_events = events } in
      let net₁ = set_wire (set_node net p b) p q (frame ∷ []) in
      let (b', done, tells, sent, routes, c) =
        handles_frame s ids (net.nodes q) p frame 0 (from_raw [])
          ((Reachable-Agrees s ids r).coherent q) in
      let same =
        on_received_rpc_frame-SameNode s ids (net.nodes q) b' p frame
          ((Reachable-Agrees s ids r).coherent q) done in
      let net₂ = set_wire (set_node net₁ q b') p q [] in
      let free : may_hand_on net p (poll (net.nodes p)).1 ≡ true = rw (e, poll, clear q) refl in
      let polled : poll_at net p ≡ net₁ = rw (e, poll, clear q) refl in
      let event : (poll (net.nodes p)).1 ≡ some (notify_handler q (send_frame frame)) =
        rw (e, poll) refl in
      let r₁ = subst (Reachable s ids) polled (next r (polls p free) refl) in
      let arrived : receive_at s ids net₁ p q ≡ returned net₂ =
        rw (rewired-at p q (frame ∷ []) net.wires, update-off p b net.nodes q d, done) refl in
      let mine : net₂.nodes p ≡ b =
        update-off q b' net₁.nodes p (λ x. d (sym x)) ∙ update-at p b net.nodes in
      let others : (x : PeerId) → x ≢ p → x ≢ q → net₂.nodes x ≡ net.nodes x =
        λ x n m. update-off q b' net₁.nodes x m ∙ update-off p b net.nodes x n in
      (
        net₂,
        ap₂ (λ (n : Net) (x : Option ToSwarm). arrive n p x) polled event ∙ arrived,
        record {
          reachable = next r₁ (receives p q) arrived;
          queue = ap (λ (x : Behaviour). x.swarm_out_events) mine;
          clear = λ x.
              by_node (λ z. net₂.wires p z ≡ []) q (rewired-at p q [] net₁.wires)
                (λ z n.
                  rewired-off_target p q [] net₁.wires p z n
                  ∙ rewired-off_target p q (frame ∷ []) net.wires p z n
                  ∙ clear z)
                x;
          same_router = ap (λ (x : Behaviour). x.router) mine;
          same_links = refl;
          same_own = λ x t n.
              by_node
                (λ z.
                  z ≢ p
                  → Router.is_subscribed (net₂.nodes z).router t
                    ≡ Router.is_subscribed (net.nodes z).router t)
                q
                (λ m.
                  ap (λ (k : Behaviour). Router.is_subscribed k.router t)
                    (update-at q b' net₁.nodes)
                  ∙ same.same_own t)
                (λ z m k. ap (λ (w : Behaviour). Router.is_subscribed w.router t) (others z k m)) x
                n;
          tells = λ x n.
              by_node
                (λ z.
                  z ≢ p
                  → told (net₂.nodes z).swarm_out_events
                    ≡ told (net.nodes z).swarm_out_events
                      ++ heard ids (net.nodes z) p
                          (sent_to z (notify_handler q (send_frame frame) ∷ [])).publish)
                q
                (λ m.
                  ap (λ (k : Behaviour). told k.swarm_out_events) (update-at q b' net₁.nodes)
                  ∙ tells
                  ∙ ap
                      (λ (ms : List MessageProto).
                        told (net.nodes q).swarm_out_events ++ heard ids (net.nodes q) p ms)
                      (ground (arith, append-nil frame.publish)))
                (λ z m k.
                  ap (λ (w : Behaviour). told w.swarm_out_events) (others z k m)
                  ∙ sym (append-nil (told (net.nodes z).swarm_out_events))
                  ∙ ap (λ (l : List Event). told (net.nodes z).swarm_out_events ++ l)
                      (sym (heard-nil ids (net.nodes z) p))
                  ∙ ap
                      (λ (ms : List MessageProto).
                        told (net.nodes z).swarm_out_events ++ heard ids (net.nodes z) p ms)
                      (ground (arith, m)))
                x n;
        },
      )

  pub exchange_at_lem :
      (net : Net) (p : PeerId) (event : ToSwarm) (events : List ToSwarm)
      → Reachable s ids net
      → (net.nodes p).swarm_out_events ≡ event ∷ events
      → writes_to p (event ∷ []) ≡ false
      → ((q : PeerId) → net.wires p q ≡ [])
      → (net' : Net) × (exchange_at net p ≡ returned net')
        × Exchanged net net' p (event ∷ []) events
  unfolding exchange_at poll_at poll sent_to writes_to
  exchange_at_lem net p (generate_event m) events r e away clear =
      let b : Behaviour = record (net.nodes p) { swarm_out_events = events } in
      let polled : poll_at net p ≡ set_node net p b = rw (e, poll) refl in
      let free : may_hand_on net p (poll (net.nodes p)).1 ≡ true = rw (e, poll) refl in
      (
        set_node net p b,
        rw (e, poll) refl,
        dropped net p (generate_event m) events clear (λ q. refl)
            (subst (Reachable s ids) polled (next r (polls p free) refl)),
      )
  exchange_at_lem net p (notify_handler q keep_alive) events r e away clear =
      let b : Behaviour = record (net.nodes p) { swarm_out_events = events } in
      let polled : poll_at net p ≡ set_node net p b = rw (e, poll) refl in
      let free : may_hand_on net p (poll (net.nodes p)).1 ≡ true = rw (e, poll) refl in
      (
        set_node net p b,
        rw (e, poll) refl,
        dropped net p (notify_handler q keep_alive) events clear (λ x. refl)
            (subst (Reachable s ids) polled (next r (polls p free) refl)),
      )
  exchange_at_lem net p (notify_handler q (send_frame frame)) events r e away clear =
      handed net p q frame events r e (λ x. absurd (ground (arith, away, x))) clear
