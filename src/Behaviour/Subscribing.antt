-- ===== src/Behaviour/Subscribing.antt =====
-- `subscribe` and `unsubscribe` of floodsub/src/behaviour.rs.
use rust_libp2p_pubsub.Prelude.{
  ℕ, ◌≡◌, refl, sym, ap, ◌∙◌, Bool, true, not, ◌&&◌, ◌||◌, [], ◌∷◌, if◌then◌else◌, arith, inl, inr,
  ◌==◌, length, Bool-cases, ltb,
}
use rust_libp2p_pubsub.Prelude.Order.{ℕ-ord, same}
use rust_libp2p_pubsub.Libp2p.{PeerId, ConnectionId}
use rust_libp2p_pubsub.Topic.{TopicHash, Topic, hash_of, TopicHash-ord}
use rust_libp2p_pubsub.Collections.Vec.{contains, IsNodup}
use rust_libp2p_pubsub.Collections.HashMap
use rust_libp2p_pubsub.Collections.VecMap.{VecMap}
use rust_libp2p_pubsub.Connections.Manager
use rust_libp2p_pubsub.Connections.Manager.Counts.{Reach, Reach-active_peers}
use rust_libp2p_pubsub.Connections.Manager.Peers.{active_peers-IsNodup}
use rust_libp2p_pubsub.Router
use rust_libp2p_pubsub.Router.{Router}
use rust_libp2p_pubsub.Router.Refinement.{step_own, step, spec_own, subscribes, unsubscribes}
use rust_libp2p_pubsub.Frame.SubOpts
use rust_libp2p_pubsub.Frame.SubOpts.{SubscriptionAction}
use rust_libp2p_pubsub.Frame.Rpc.{new_with_subscriptions, into_rpc}
use rust_libp2p_pubsub.Proto.{RpcProto}
use rust_libp2p_pubsub.Proto.Fragmentation.{Sizes}
use rust_libp2p_pubsub.Proto.Fragmentation.Contents.{
  Contents, contents, join, nothing, join-nothing,
}
use rust_libp2p_pubsub.Behaviour.{Behaviour, ok}
use rust_libp2p_pubsub.Behaviour.Outgoing.{announce, subscribe, unsubscribe}
use rust_libp2p_pubsub.Behaviour.Sending.{
  sent_to, told, can_send, SameBut, unchanged, send_to_all_lem,
}

-- The frame that tells of a subscription.
abbrev pub announcement : SubscriptionAction → RpcProto
announcement action = into_rpc (new_with_subscriptions (action ∷ []))

nobody :
    (m : Manager.ConnectionManager)
    → (Manager.active_peers_count m == 0) ≡ true
    → Manager.active_peers m ≡ []
unfolding Manager.active_peers Manager.active_peers_count
nobody m e = by_table m.peer_established_connections e
  where
    by_table : (t : VecMap PeerId ConnectionId) → (length t == 0) ≡ true → HashMap.keys t ≡ []
    by_table [] e = refl
    by_table (x ∷ t) e = absurd (ground arith)

module _ (s : Sizes) where
  -- What a peer hears of an action: the frame, if the peer is active and the frame can be sent.
  abbrev pub heard : Behaviour → Bool → SubscriptionAction → Contents
  heard b active action =
      if active && can_send s b.config.max_frame_size (announcement action)
      then contents (announcement action)
      else nothing

  announce_lem :
      (b : Behaviour) (q : PeerId) (action : SubscriptionAction)
      → IsNodup (Manager.active_peers b.connections)
      → let b' = announce s b action in
        (sent_to q b'.swarm_out_events
          ≡ join
              (sent_to q b.swarm_out_events)
              (heard b (contains q (Manager.active_peers b.connections)) action))
        × (told b'.swarm_out_events ≡ told b.swarm_out_events)
        × SameBut b b'
  unfolding announce contains
  announce_lem b q action n = elim (Bool-cases (Manager.active_peers_count b.connections == 0)) [
    | inl e ↦
        rw (e, announce, nobody b.connections e)
          (sym (join-nothing (sent_to q b.swarm_out_events)), refl, unchanged b)
    | inr e ↦
        rw (e, announce)
          (send_to_all_lem s b q (Manager.active_peers b.connections) (announcement action) n)
  ]

  -- After any history of connections that the swarm may report, `subscribe` never fails: it
  -- reports whether the topic is new. After it the node is subscribed to the topic and to what it
  -- was before, and if the topic is new, each peer that the swarm counts a connection of, and
  -- nobody else, is sent the subscription, if its frame can be fragmented. The application is told
  -- nothing, and the connections stay as they were.
  pub subscribe_lem :
      (b : Behaviour) (topic : Topic) (n : PeerId → ℕ) (u : TopicHash) (q : PeerId)
      → Reach b.connections n
      → let t = hash_of topic in
        let fresh = not (Router.is_subscribed b.router t) in
        let (b', result) = subscribe s b topic in
        (result ≡ ok fresh)
        × (Router.is_subscribed b'.router u ≡ (same u t || Router.is_subscribed b.router u))
        × (sent_to q b'.swarm_out_events
            ≡ join
                (sent_to q b.swarm_out_events)
                (heard b (fresh && ltb 0 (n q)) (SubOpts.subscribe t)))
        × (told b'.swarm_out_events ≡ told b.swarm_out_events)
        × (b'.connections ≡ b.connections)
  unfolding subscribe Router.subscribe step spec_own
  subscribe_lem b topic n u q r =
      let t = hash_of topic in
      let action = SubOpts.subscribe t in
      let b₁ : Behaviour = record b { router = (Router.subscribe b.router t).0 } in
      let (sent, quiet, same) = announce_lem b₁ q action (active_peers-IsNodup r) in
      elim (Bool-cases (Router.is_subscribed b.router t)) [
        | inl e ↦
            rw (e, subscribe)
              (refl, ground arith, sym (join-nothing (sent_to q b.swarm_out_events)), refl, refl)
        | inr e ↦
            rw (e, subscribe)
              (
                refl,
                ap (λ (k : Router). Router.is_subscribed k u) same.same_router
                    ∙ step_own b.router (subscribes t) u,
                sent
                    ∙ ap (λ (k : Bool). join (sent_to q b.swarm_out_events) (heard b k action))
                        (Reach-active_peers r q),
                quiet,
                same.same_connections,
              )
      ]

  -- After any history of connections that the swarm may report, `unsubscribe` never fails: it
  -- reports whether there was a subscription to end. After it the node has the other subscriptions
  -- that it had, and if there was one to end, each peer that the swarm counts a connection of, and
  -- nobody else, is sent its end, if the frame can be fragmented. The application is told nothing,
  -- and the connections stay as they were.
  pub unsubscribe_lem :
      (b : Behaviour) (topic : Topic) (n : PeerId → ℕ) (u : TopicHash) (q : PeerId)
      → Reach b.connections n
      → let t = hash_of topic in
        let ours = Router.is_subscribed b.router t in
        let (b', result) = unsubscribe s b topic in
        (result ≡ ok ours)
        × (Router.is_subscribed b'.router u ≡ (not (same u t) && Router.is_subscribed b.router u))
        × (sent_to q b'.swarm_out_events
            ≡ join
                (sent_to q b.swarm_out_events)
                (heard b (ours && ltb 0 (n q)) (SubOpts.unsubscribe t)))
        × (told b'.swarm_out_events ≡ told b.swarm_out_events)
        × (b'.connections ≡ b.connections)
  unfolding unsubscribe Router.unsubscribe step spec_own
  unsubscribe_lem b topic n u q r =
      let t = hash_of topic in
      let action = SubOpts.unsubscribe t in
      let b₁ : Behaviour = record b { router = (Router.unsubscribe b.router t).0 } in
      let (sent, quiet, same) = announce_lem b₁ q action (active_peers-IsNodup r) in
      elim (Bool-cases (Router.is_subscribed b.router t)) [
        | inr e ↦
            rw (e, unsubscribe)
              (refl, ground arith, sym (join-nothing (sent_to q b.swarm_out_events)), refl, refl)
        | inl e ↦
            rw (e, unsubscribe)
              (
                refl,
                ap (λ (k : Router). Router.is_subscribed k u) same.same_router
                    ∙ step_own b.router (unsubscribes t) u,
                sent
                    ∙ ap (λ (k : Bool). join (sent_to q b.swarm_out_events) (heard b k action))
                        (Reach-active_peers r q),
                quiet,
                same.same_connections,
              )
      ]

  -- What becomes of the router.
  pub router-subscribe :
      (b : Behaviour) (topic : Topic) (n : PeerId → ℕ)
      → Reach b.connections n
      → let t = hash_of topic in
        (subscribe s b topic).0.router
        ≡ (if Router.is_subscribed b.router t then b.router else (Router.subscribe b.router t).0)
  unfolding subscribe
  router-subscribe b topic n r =
      let t = hash_of topic in
      let b₁ : Behaviour = record b { router = (Router.subscribe b.router t).0 } in
      let (sent, quiet, same) = announce_lem b₁ 0 (SubOpts.subscribe t) (active_peers-IsNodup r) in
      elim (Bool-cases (Router.is_subscribed b.router t)) [
        | inl e ↦ rw (e, subscribe) refl
        | inr e ↦ rw (e, subscribe) same.same_router
      ]

  pub router-unsubscribe :
      (b : Behaviour) (topic : Topic) (n : PeerId → ℕ)
      → Reach b.connections n
      → let t = hash_of topic in
        (unsubscribe s b topic).0.router
        ≡ (if Router.is_subscribed b.router t then (Router.unsubscribe b.router t).0 else b.router)
  unfolding unsubscribe
  router-unsubscribe b topic n r =
      let t = hash_of topic in
      let b₁ : Behaviour = record b { router = (Router.unsubscribe b.router t).0 } in
      let (sent, quiet, same) =
        announce_lem b₁ 0 (SubOpts.unsubscribe t) (active_peers-IsNodup r) in
      elim (Bool-cases (Router.is_subscribed b.router t)) [
        | inl e ↦ rw (e, unsubscribe) same.same_router
        | inr e ↦ rw (e, unsubscribe) refl
      ]
