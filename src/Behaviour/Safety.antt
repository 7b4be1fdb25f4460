-- ===== src/Behaviour/Safety.antt =====
-- A node of floodsub/src/behaviour.rs never panics, whatever its peers send.
use rust_libp2p_pubsub.Prelude.{ℕ, [], List, ◌∷◌, ◌≡◌, refl, sym, subst, arith}
use rust_libp2p_pubsub.Prelude.Order.{ℕ-ord}
use rust_libp2p_pubsub.Prelude.Outcome.{Outcome, returned}
use rust_libp2p_pubsub.Libp2p.{PeerId, PeerIdBytes}
use rust_libp2p_pubsub.Topic.{Topic, hash_of, from_raw}
use rust_libp2p_pubsub.Connections.Manager.{ConnectionManager, peer_connections_count}
use rust_libp2p_pubsub.Connections.Manager.Counts
use rust_libp2p_pubsub.Connections.Manager.Counts.{bump, lower, Reach-count}
use rust_libp2p_pubsub.Router.Invariant.{
  IsCoherent, empty-IsCoherent, subscribe-IsCoherent, unsubscribe-IsCoherent,
}
use rust_libp2p_pubsub.Proto.Fragmentation.{Sizes}
use rust_libp2p_pubsub.Handler.Types
use rust_libp2p_pubsub.Handler.Types.{frame_received}
use rust_libp2p_pubsub.Behaviour.{Behaviour, ToSwarm, new, poll}
use rust_libp2p_pubsub.Behaviour.Outgoing.{subscribe, unsubscribe}
use rust_libp2p_pubsub.Behaviour.Swarm.{
  on_swarm_event, on_connection_handler_event, handle_established_inbound_connection,
  handle_established_outbound_connection, on_connection_address_change,
}
use rust_libp2p_pubsub.Behaviour.Subscribing.{
  subscribe_lem, unsubscribe_lem, router-subscribe, router-unsubscribe,
}
use rust_libp2p_pubsub.Behaviour.Publishing.{publishes_to_routes}
use rust_libp2p_pubsub.Behaviour.Connecting.{connects, on_connection_closed_lem}
use rust_libp2p_pubsub.Behaviour.Frames.{handles_frame}
use rust_libp2p_pubsub.Behaviour.Untouched.{on_received_rpc_frame-SameNode}
use rust_libp2p_pubsub.Behaviour.Steps.{
  Step, Reach, start, next, subscribes, unsubscribes, publishes, registers_inbound,
  registers_outbound, establishes, closes, moves, passes, hears, polls,
}

module _ (s : Sizes) (ids : PeerIdBytes) where
  -- The router's tables agree, and the manager counts with the swarm.
  record IsSound (b : Behaviour) (n : PeerId → ℕ) : Type 0 where
    coherent : IsCoherent b.router
    in_step : Counts.Reach b.connections n

  abbrev ReturnsSound : Outcome Behaviour → (PeerId → ℕ) → Type 0
  ReturnsSound o n = (b : Behaviour) × (o ≡ returned b) × IsSound b n

  same-IsSound :
      (b b' : Behaviour) (n : PeerId → ℕ)
      → IsSound b n
      → b'.router ≡ b.router
      → b'.connections ≡ b.connections
      → IsSound b' n
  same-IsSound b b' n h e f = record {
    coherent = subst IsCoherent (sym e) h.coherent;
    in_step = subst (λ (m : ConnectionManager). Counts.Reach m n) (sym f) h.in_step;
  }

  hears-IsSound :
      (b : Behaviour) (n : PeerId → ℕ) (src : PeerId) (event : Types.Event)
      → IsSound b n
      → ReturnsSound (on_connection_handler_event s ids b src event) n
  unfolding on_connection_handler_event
  hears-IsSound b n src (frame_received frame) h =
      let (b', done, tells, sent, routes, c) =
        handles_frame s ids b src frame 0 (from_raw []) h.coherent in
      let same = on_received_rpc_frame-SameNode s ids b b' src frame h.coherent done in
      (
        b',
        done,
        record {
          coherent = c;
          in_step =
              subst (λ (m : ConnectionManager). Counts.Reach m n) (sym same.same_connections)
                h.in_step;
        },
      )
  hears-IsSound b n src (Types.disabled reason) h = (b, refl, h)

  subscribe-IsSound :
      (b : Behaviour) (n : PeerId → ℕ) (topic : Topic)
      → IsSound b n
      → IsSound (subscribe s b topic).0 n
  subscribe-IsSound b n topic h =
      let t = hash_of topic in
      let (result, own, sent, quiet, linked) = subscribe_lem s b topic n t 0 h.in_step in
      record {
        coherent =
            subst IsCoherent (sym (router-subscribe s b topic n h.in_step))
              (ground (arith, h.coherent, subscribe-IsCoherent b.router t h.coherent));
        in_step = subst (λ (m : ConnectionManager). Counts.Reach m n) (sym linked) h.in_step;
      }

  unsubscribe-IsSound :
      (b : Behaviour) (n : PeerId → ℕ) (topic : Topic)
      → IsSound b n
      → IsSound (unsubscribe s b topic).0 n
  unsubscribe-IsSound b n topic h =
      let t = hash_of topic in
      let (result, own, sent, quiet, linked) = unsubscribe_lem s b topic n t 0 h.in_step in
      record {
        coherent =
            subst IsCoherent (sym (router-unsubscribe s b topic n h.in_step))
              (ground (arith, h.coherent, unsubscribe-IsCoherent b.router t h.coherent));
        in_step = subst (λ (m : ConnectionManager). Counts.Reach m n) (sym linked) h.in_step;
      }

  poll-IsSound : (b : Behaviour) (n : PeerId → ℕ) → IsSound b n → IsSound (poll b).0 n
  unfolding poll
  poll-IsSound b n h = by_queue b.swarm_out_events refl
    where
      by_queue : (events : List ToSwarm) → b.swarm_out_events ≡ events → IsSound (poll b).0 n
      by_queue [] e = rw (e, poll) h
      by_queue (event ∷ events) e =
          rw (e, poll) (record { coherent = h.coherent; in_step = h.in_step })

  Step-IsSound :
      {b : Behaviour} {n n' : PeerId → ℕ} {o : Outcome Behaviour}
      → IsSound b n
      → Step s ids b n o n'
      → ReturnsSound o n'
  unfolding on_swarm_event on_connection_address_change handle_established_inbound_connection
      handle_established_outbound_connection
  Step-IsSound {b} {n} h (subscribes topic) =
      ((subscribe s b topic).0, refl, subscribe-IsSound b n topic h)
  Step-IsSound {b} {n} h (unsubscribes topic) =
      ((unsubscribe s b topic).0, refl, unsubscribe-IsSound b n topic h)
  Step-IsSound {b} {n} h (publishes topic payload drawn generator seqno drew) =
      let (b', done, sent, moved, quiet, routed, linked) =
        publishes_to_routes s ids b topic payload drawn generator seqno 0 h.coherent drew in
      (b', rw done refl, same-IsSound b b' n h routed linked)
  Step-IsSound {b} {n} h (registers_inbound c p l a now fresh) =
      (_, refl, record { coherent = h.coherent; in_step = Counts.inbound c p l a h.in_step fresh })
  Step-IsSound {b} {n} h (registers_outbound c p a now fresh) =
      (_, refl, record { coherent = h.coherent; in_step = Counts.outbound c p a h.in_step fresh })
  Step-IsSound {b} {n} h (establishes p c mine down) =
      let (b', done, linked, sent, routed) = connects s b p c n 0 h.in_step mine down in
      (b', done, record { coherent = subst IsCoherent (sym routed) h.coherent; in_step = linked })
  Step-IsSound {b} {n} h (closes p c there) =
      let (b', done, linked, routes, coherent, events) =
        on_connection_closed_lem b p c n 0 (from_raw []) h.in_step h.coherent there in
      (b', done, record { coherent = coherent; in_step = linked })
  Step-IsSound {b} {n} h (moves c a) = (
    on_connection_address_change b c a,
    refl,
    record { coherent = h.coherent; in_step = Counts.move c a h.in_step },
  )
  Step-IsSound {b} {n} h passes = (b, refl, h)
  Step-IsSound {b} {n} h (hears src event) = hears-IsSound b n src event h
  Step-IsSound {b} {n} h polls = ((poll b).0, refl, poll-IsSound b n h)

  Reach-IsSound : {b : Behaviour} {n : PeerId → ℕ} → Reach s ids b n → IsSound b n
  unfolding new
  Reach-IsSound (start config unix_nanos) = record {
    coherent = empty-IsCoherent;
    in_step = Counts.start;
  }
  Reach-IsSound {b} {n} (next r step e) =
      let (b', done, h) = Step-IsSound (Reach-IsSound r) step in
      let there : b' ≡ b = ground (arith, done, e) in subst (λ c. IsSound c n) there h

  -- After any history of a node, with reports of the swarm as libp2p makes them and any frames
  -- from any peers, a step that may happen returns: nothing panics and no debug assertion fails.
  -- Afterwards the router's tables agree, and the manager counts the established connections of
  -- each peer as the swarm does.
  pub Reach-returns :
      {b : Behaviour} {n n' : PeerId → ℕ} {o : Outcome Behaviour} (p : PeerId)
      → Reach s ids b n
      → Step s ids b n o n'
      → (b' : Behaviour) × (o ≡ returned b')
        × Reach s ids b' n'
        × IsCoherent b'.router
        × (peer_connections_count b'.connections p ≡ n' p)
  Reach-returns p r step =
      let (b', done, h) = Step-IsSound (Reach-IsSound r) step in
      (b', done, next r step done, h.coherent, Reach-count h.in_step p)
