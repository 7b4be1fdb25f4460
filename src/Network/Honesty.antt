-- ===== src/Network/Honesty.antt =====
-- What an operation of floodsub/src/behaviour.rs queues for the other nodes ends with the truth.
use rust_libp2p_pubsub.Prelude.{
  ℕ, ◌≡◌, refl, sym, ap, ◌∙◌, subst, true, false, not, ◌&&◌, Option, List, [], ◌++◌, is_empty,
  if◌then◌else◌, arith, ltb, append-nil,
}
use rust_libp2p_pubsub.Prelude.Order.{ℕ-ord, same, Bytes}
use rust_libp2p_pubsub.Prelude.Outcome.{returned}
use rust_libp2p_pubsub.Libp2p.{PeerId, PeerIdBytes, ConnectionId}
use rust_libp2p_pubsub.Topic.{TopicHash, TopicHash-ord, Topic, hash_of}
use rust_libp2p_pubsub.Collections.BTreeSet
use rust_libp2p_pubsub.Connections.Manager.{ConnectionManager}
use rust_libp2p_pubsub.Connections.Manager.Counts.{Reach, bump}
use rust_libp2p_pubsub.Router
use rust_libp2p_pubsub.Router.{Router, propagation_routes}
use rust_libp2p_pubsub.Router.Invariant.{IsCoherent, subscribe-IsCoherent, unsubscribe-IsCoherent}
use rust_libp2p_pubsub.Proto.{SubOptsProto}
use rust_libp2p_pubsub.Proto.Fragmentation.{Sizes}
use rust_libp2p_pubsub.Proto.Fragmentation.Contents.{Contents}
use rust_libp2p_pubsub.Frame.Rpc.{into_rpc}
use rust_libp2p_pubsub.Frame.SubOpts
use rust_libp2p_pubsub.Behaviour.{Behaviour}
use rust_libp2p_pubsub.Behaviour.Outgoing.{subscribe, unsubscribe, publish}
use rust_libp2p_pubsub.Behaviour.Sending.{can_send}
use rust_libp2p_pubsub.Behaviour.Entries.{last_word}
use rust_libp2p_pubsub.Behaviour.Subscribing.{
  announcement, heard, subscribe_lem, unsubscribe_lem, router-subscribe, router-unsubscribe,
}
use rust_libp2p_pubsub.Behaviour.{Result, PublishError}
use rust_libp2p_pubsub.Behaviour.Publishing.{publishes_to_routes}
use rust_libp2p_pubsub.Behaviour.Connecting.{connects}
use rust_libp2p_pubsub.Behaviour.Swarm.{own_subscriptions, on_connection_established}
use rust_libp2p_pubsub.SeqNo
use rust_libp2p_pubsub.SeqNo.{MessageSeqNumberGenerator}
use rust_libp2p_pubsub.Connections.Manager.Invariant.{belongs, lookup, is_up}
use rust_libp2p_pubsub.Network.Agreement.{Honest, queued}
use rust_libp2p_pubsub.Network.Words.{last_word-heard, last_word-own}

routes-subscribe :
    (r : Router) (u t : TopicHash)
    → propagation_routes (Router.subscribe r u).0 t ≡ propagation_routes r t
unfolding Router.subscribe propagation_routes
routes-subscribe r u t = refl

routes-unsubscribe :
    (r : Router) (u t : TopicHash)
    → propagation_routes (Router.unsubscribe r u).0 t ≡ propagation_routes r t
unfolding Router.unsubscribe propagation_routes
routes-unsubscribe r u t = refl

-- An operation that leaves the router alone and queues no subscription.
pub quiet-Honest :
    (b b' : Behaviour) (n : PeerId → ℕ)
    → IsCoherent b.router
    → Reach b'.connections n
    → b'.router ≡ b.router
    → ((q : PeerId) → queued q b' ≡ queued q b)
    → Honest b b' n n
quiet-Honest b b' n c r e quiet = record {
  still_coherent = subst IsCoherent (sym e) c;
  still_counted = r;
  same_routes = λ q t. ap (λ (k : Router). BTreeSet.contains q (propagation_routes k t)) e;
  tells = λ q t h. (
    [],
    quiet q ∙ sym (append-nil (queued q b)),
    ap (λ (k : Router). ltb 0 (n q) && Router.is_subscribed k t) (sym e),
  );
}

module _ (s : Sizes) where
  -- What a new peer hears, and nobody else.
  abbrev introduction : Behaviour → PeerId → PeerId → List SubOptsProto
  introduction b p q = if same q p then (own_subscriptions b).subscriptions else []

  last_word-introduction :
      (b : Behaviour) (p q : PeerId) (n : PeerId → ℕ) (t : TopicHash)
      → is_empty t.hash ≡ false
      → n p ≡ 0
      → last_word (introduction b p q) t (ltb 0 (n q) && Router.is_subscribed b.router t)
        ≡ (ltb 0 (bump p n q) && Router.is_subscribed b.router t)
  unfolding into_rpc Router.is_subscribed
  last_word-introduction b p q n t e alone =
      ground (arith, last_word-own b.router.subscriptions t false e, alone)

  pub subscribe-Honest :
      (b : Behaviour) (topic : Topic) (n : PeerId → ℕ)
      → IsCoherent b.router
      → Reach b.connections n
      → can_send s b.config.max_frame_size (announcement (SubOpts.subscribe (hash_of topic))) ≡ true
      → Honest b (subscribe s b topic).0 n n
  subscribe-Honest b topic n c r sendable =
      let t = hash_of topic in
      let e = router-subscribe s b topic n r in
      record {
        still_coherent =
            subst IsCoherent (sym e) (ground (arith, c, subscribe-IsCoherent b.router t c));
        still_counted =
            let (result, own, sent, quiet, linked) = subscribe_lem s b topic n t 0 r in
            subst (λ (m : ConnectionManager). Reach m n) (sym linked) r;
        same_routes = λ q u.
            ap (λ (k : Router). BTreeSet.contains q (propagation_routes k u)) e
            ∙ ground (arith, routes-subscribe b.router t u);
        tells = λ q u h.
            let (result, own, sent, quiet, linked) = subscribe_lem s b topic n u q r in
            let fresh = not (Router.is_subscribed b.router t) in
            (
              (heard s b (fresh && ltb 0 (n q)) (SubOpts.subscribe t)).subscriptions,
              ap (λ (k : Contents). k.subscriptions) sent,
              last_word-heard s b (fresh && ltb 0 (n q)) (SubOpts.subscribe t) u
                    (ltb 0 (n q) && Router.is_subscribed b.router u) h sendable
                  ∙ ground (arith, own),
            );
      }

  pub unsubscribe-Honest :
      (b : Behaviour) (topic : Topic) (n : PeerId → ℕ)
      → IsCoherent b.router
      → Reach b.connections n
      → can_send s b.config.max_frame_size (announcement (SubOpts.unsubscribe (hash_of topic)))
        ≡ true
      → Honest b (unsubscribe s b topic).0 n n
  unsubscribe-Honest b topic n c r sendable =
      let t = hash_of topic in
      let e = router-unsubscribe s b topic n r in
      record {
        still_coherent =
            subst IsCoherent (sym e) (ground (arith, c, unsubscribe-IsCoherent b.router t c));
        still_counted =
            let (result, own, sent, quiet, linked) = unsubscribe_lem s b topic n t 0 r in
            subst (λ (m : ConnectionManager). Reach m n) (sym linked) r;
        same_routes = λ q u.
            ap (λ (k : Router). BTreeSet.contains q (propagation_routes k u)) e
            ∙ ground (arith, routes-unsubscribe b.router t u);
        tells = λ q u h.
            let (result, own, sent, quiet, linked) = unsubscribe_lem s b topic n u q r in
            let ours = Router.is_subscribed b.router t in
            (
              (heard s b (ours && ltb 0 (n q)) (SubOpts.unsubscribe t)).subscriptions,
              ap (λ (k : Contents). k.subscriptions) sent,
              last_word-heard s b (ours && ltb 0 (n q)) (SubOpts.unsubscribe t) u
                    (ltb 0 (n q) && Router.is_subscribed b.router u) h sendable
                  ∙ ground (arith, own),
            );
      }

  module _ (ids : PeerIdBytes) where
    pub publish-Honest :
        (b b' : Behaviour) (topic : Topic) (payload : Bytes) (drawn : ℕ)
        (generator : MessageSeqNumberGenerator) (seqno : Option ℕ)
        (result : Result PublishError (Unit {0})) (n : PeerId → ℕ)
        → IsCoherent b.router
        → Reach b.connections n
        → SeqNo.next b.message_seqno_generator drawn ≡ returned (generator, seqno)
        → publish s ids b topic payload drawn ≡ returned (b', result)
        → Honest b b' n n
    publish-Honest b b' topic payload drawn generator seqno result n c r drew e =
        let at : (q : PeerId)
            → (b'.router ≡ b.router)
              × (b'.connections ≡ b.connections)
              × (queued q b' ≡ queued q b) =
          λ q.
            let (b'', done, sent, moved, quiet, routed, linked) =
              publishes_to_routes s ids b topic payload drawn generator seqno q c drew in
            let same : b' ≡ b'' = cc in
            (
              rw same routed,
              rw same linked,
              rw same (
                  ap (λ (k : Contents). k.subscriptions) sent
                  ∙ (unfold into_rpc in ground (arith, append-nil (queued q b)))),
            ) in
        quiet-Honest b b' n c (subst (λ (m : ConnectionManager). Reach m n) (sym (at 0).1) r)
          (at 0).0 (λ q. (at q).2)

  pub establish-Honest :
      (b b' : Behaviour) (p : PeerId) (c : ConnectionId) (n : PeerId → ℕ)
      → IsCoherent b.router
      → Reach b.connections n
      → belongs b.connections p c ≡ true
      → is_up (lookup b.connections c) ≡ false
      → n p ≡ 0
      → can_send s b.config.max_frame_size (own_subscriptions b) ≡ true
      → on_connection_established s b p c (n p) ≡ returned b'
      → Honest b b' n (bump p n)
  establish-Honest b b' p c n h r mine down alone sendable e =
      let at : (q : PeerId)
          → (b'.router ≡ b.router)
            × Reach b'.connections (bump p n)
            × (queued q b' ≡ queued q b ++ introduction b p q) =
        λ q.
          let (b'', done, linked, sent, routed) = connects s b p c n q r mine down in
          let same : b' ≡ b'' = cc in
          (
            rw same routed,
            rw same linked,
            rw same (ap (λ (k : Contents). k.subscriptions) sent ∙ ground (arith, alone, sendable)),
          ) in
      record {
        still_coherent = subst IsCoherent (sym (at 0).0) h;
        still_counted = (at 0).1;
        same_routes =
            λ q t. ap (λ (k : Router). BTreeSet.contains q (propagation_routes k t)) (at 0).0;
        tells = λ q t e.
            (introduction b p q, (at q).2, rw (at 0).0 (last_word-introduction b p q n t e alone));
      }
