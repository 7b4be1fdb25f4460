-- ===== src/Behaviour/Connecting.antt =====
-- The connection events of floodsub/src/behaviour.rs, as the swarm reports them.
use rust_libp2p_pubsub.Prelude.{
  ℕ, ◌+◌, ◌-◌, ◌≡◌, refl, sym, ◌∙◌, subst, true, false, not, ◌&&◌, if◌then◌else◌, arith, inl, inr,
  ◌==◌, Bool-cases,
}
use rust_libp2p_pubsub.Prelude.Order.{ℕ-ord, same}
use rust_libp2p_pubsub.Prelude.Outcome.{returned}
use rust_libp2p_pubsub.Libp2p.{PeerId, ConnectionId}
use rust_libp2p_pubsub.Topic.{TopicHash}
use rust_libp2p_pubsub.Collections.BTreeSet
use rust_libp2p_pubsub.Connections.Manager
use rust_libp2p_pubsub.Connections.Manager.{ConnectionManager}
use rust_libp2p_pubsub.Connections.Manager.Invariant.{belongs, counted, lookup, is_up}
use rust_libp2p_pubsub.Connections.Manager.Counts.{
  Reach, Reach-count, establish, close, bump, lower,
}
use rust_libp2p_pubsub.Router.{remove_peer, propagation_routes}
use rust_libp2p_pubsub.Router.Invariant.{IsCoherent}
use rust_libp2p_pubsub.Router.RemovePeer.{topic_has_peer-remove_peer, remove_peer-IsCoherent}
use rust_libp2p_pubsub.Router.Refinement.{contains_routes}
use rust_libp2p_pubsub.Proto.Fragmentation.{Sizes}
use rust_libp2p_pubsub.Proto.Fragmentation.Contents.{join, nothing, join-nothing}
use rust_libp2p_pubsub.Prelude.{ap, List, [], ◌∷◌, map, some, none}
use rust_libp2p_pubsub.Proto.{RpcProto, SubOptsProto}
use rust_libp2p_pubsub.Frame.SubOpts
use rust_libp2p_pubsub.Frame.Rpc.{into_rpc}
use rust_libp2p_pubsub.Behaviour.{Behaviour, send_rpc_frame}
use rust_libp2p_pubsub.Behaviour.Swarm.{
  on_connection_established, on_connection_closed, own_subscriptions,
}
use rust_libp2p_pubsub.Behaviour.Sending.{sent_to, delivery, send_rpc_frame_lem}

count_here :
    (m : ConnectionManager) (n : PeerId → ℕ) (p : PeerId)
    → Reach m (bump p n)
    → Manager.peer_connections_count m p ≡ n p + 1
count_here m n p r = ground (arith, Reach-count r p)

-- The frame that subscribes to each of the node's topics.
abbrev subscription : TopicHash → SubOptsProto
subscription t = record { subscribe = some true; topic_id = some t.hash }

abbrev pub greeting : Behaviour → RpcProto
greeting b = record {
  subscriptions = map subscription b.router.subscriptions;
  publish = [];
  control = none;
}

written :
    (ts : List TopicHash) → map SubOpts.into_proto (map SubOpts.subscribe ts) ≡ map subscription ts
unfolding SubOpts.into_proto
written [] = refl
written (t ∷ ts) = ap (λ (subs : List SubOptsProto). subscription t ∷ subs) (written ts)

own_subscriptions-greeting : (b : Behaviour) → own_subscriptions b ≡ greeting b
unfolding into_rpc
own_subscriptions-greeting b =
    λ i. record (greeting b) { subscriptions = written b.router.subscriptions i }

module _ (s : Sizes) where
  -- `on_connection_established_lem`, with the frame as the code builds it.
  pub connects :
      (b : Behaviour) (p : PeerId) (c : ConnectionId) (n : PeerId → ℕ) (q : PeerId)
      → Reach b.connections n
      → belongs b.connections p c ≡ true
      → is_up (lookup b.connections c) ≡ false
      → (b' : Behaviour) × (on_connection_established s b p c (n p) ≡ returned b')
        × Reach b'.connections (bump p n)
        × (sent_to q b'.swarm_out_events
            ≡ join (sent_to q b.swarm_out_events) (
                if n p == 0
                then delivery s b.config.max_frame_size q p (own_subscriptions b)
                else nothing))
        × (b'.router ≡ b.router)
  unfolding on_connection_established
  connects b p c n q r mine down =
      let b₁ : Behaviour = record b {
        connections = Manager.on_connection_established b.connections p c;
      } in
      let r' = establish p c r mine down in
      let e = count_here b₁.connections n p r' in
      let (sent, quiet, same) = send_rpc_frame_lem s b₁ q p (own_subscriptions b₁) in
      elim (Bool-cases (n p == 0)) [
        | inl z ↦ (
          (send_rpc_frame s b₁ p (own_subscriptions b₁)).0,
          ground (arith, e),
          subst (λ (k : ConnectionManager). Reach k (bump p n)) (sym same.same_connections) r',
          ground (arith, sent),
          same.same_router,
        )
        | inr z ↦ (
          b₁,
          ground (arith, e),
          r',
          ground (arith, join-nothing (sent_to q b.swarm_out_events)),
          refl,
        )
      ]

  -- When, after a history that the swarm may report, it reports a connection that is registered
  -- under the peer and not yet established, with the number of the others that it counts, no
  -- assertion fails, and the manager counts with the swarm again. If the connection is the peer's
  -- first, the peer is sent a frame with a subscription to each of the node's topics, in their
  -- order, and nothing else, if it can be fragmented; nobody else is sent anything, and the router
  -- is as it was.
  pub on_connection_established_lem :
      (b : Behaviour) (p : PeerId) (c : ConnectionId) (n : PeerId → ℕ) (q : PeerId)
      → Reach b.connections n
      → belongs b.connections p c ≡ true
      → is_up (lookup b.connections c) ≡ false
      → (b' : Behaviour) × (on_connection_established s b p c (n p) ≡ returned b')
        × Reach b'.connections (bump p n)
        × (sent_to q b'.swarm_out_events
            ≡ join
                (sent_to q b.swarm_out_events)
                (if n p == 0 then delivery s b.config.max_frame_size q p (greeting b) else nothing))
        × (b'.router ≡ b.router)
  on_connection_established_lem b p c n q r mine down =
      let (b', done, linked, sent, routed) = connects b p c n q r mine down in
      (
        b',
        done,
        linked,
        sent
            ∙ ap
                (λ (frame : RpcProto).
                  join (sent_to q b.swarm_out_events)
                    (if n p == 0 then delivery s b.config.max_frame_size q p frame else nothing))
                (own_subscriptions-greeting b),
        routed,
      )

-- When, after a history that the swarm may report and with a router whose tables agree, it reports
-- that an established connection is closed, with the number of those that remain, no assertion
-- fails, the manager counts with the swarm again, and the router's tables agree. If none remains,
-- the peer is on no route any more; all other routes are as they were. No event is queued.
pub on_connection_closed_lem :
    (b : Behaviour) (p : PeerId) (c : ConnectionId) (n : PeerId → ℕ) (q : PeerId) (t : TopicHash)
    → Reach b.connections n
    → IsCoherent b.router
    → counted b.connections p c ≡ true
    → (b' : Behaviour) × (on_connection_closed b p c (n p - 1) ≡ returned b')
      × Reach b'.connections (lower p n)
      × (BTreeSet.contains q (propagation_routes b'.router t) ≡ (
          not (same q p && (n p - 1 == 0)) && BTreeSet.contains q (propagation_routes b.router t)))
      × IsCoherent b'.router
      × (b'.swarm_out_events ≡ b.swarm_out_events)
unfolding on_connection_closed
on_connection_closed_lem b p c n q t r h there =
    let b₁ : Behaviour = record b {
      connections = Manager.on_connection_closed b.connections p c;
    } in
    let r' = close p c r there in
    let e = Reach-count r' p in
    elim (Bool-cases (n p - 1 == 0)) [
      | inl z ↦ (
        record b₁ { router = remove_peer b.router p },
        ground (arith, e),
        r',
        ground (
          arith,
          contains_routes (remove_peer b.router p) t q,
          contains_routes b.router t q,
          topic_has_peer-remove_peer p b.router q t h,
        ),
        remove_peer-IsCoherent p b.router h,
        refl,
      )
      | inr z ↦ (b₁, ground (arith, e), r', ground arith, h, refl)
    ]
