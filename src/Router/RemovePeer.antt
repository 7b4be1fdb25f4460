-- ===== src/Router/RemovePeer.antt =====
-- `Router::remove_peer` of floodsub/src/router.rs: the peer's own entry goes first, and the loop
-- then takes the peer out of the sets of its topics.
use rust_libp2p_pubsub.Prelude.{
  ◌≡◌, refl, ◌∙◌, not, ◌&&◌, none, some, List, [], ◌∷◌, arith, Option-cases, inl, inr,
}
use rust_libp2p_pubsub.Prelude.Order.{ℕ-ord, same}
use rust_libp2p_pubsub.Libp2p.{PeerId}
use rust_libp2p_pubsub.Topic.{TopicHash, TopicHash-ord}
use rust_libp2p_pubsub.Collections.BTreeSet
use rust_libp2p_pubsub.Collections.BTreeSet.{BTreeSet}
use rust_libp2p_pubsub.Collections.HashMap
use rust_libp2p_pubsub.Collections.SetMap.{IsTidy, remove_element, remove_if_empty, remove-IsTidy}
use rust_libp2p_pubsub.Router.{Router, remove_peer_subscription, remove_topics, remove_peer}
use rust_libp2p_pubsub.Router.Invariant.{
  IsCoherent, peer_has_topic, topic_has_peer, topic_has_peer-remove,
}

module _ (p : PeerId) where
  -- Without an entry of the peer a removal leaves `peers_to_topics` as it is.
  remove_absent :
      (r : Router) (t : TopicHash)
      → HashMap.get p r.peers_to_topics ≡ none
      → (remove_peer_subscription r p t).peers_to_topics ≡ r.peers_to_topics
  unfolding remove_peer_subscription remove_element remove_if_empty
  remove_absent r t e = ground arith

  loop_peers_to_topics :
      (r : Router) (ts : List TopicHash)
      → HashMap.get p r.peers_to_topics ≡ none
      → (remove_topics r p ts).peers_to_topics ≡ r.peers_to_topics
  unfolding remove_topics
  loop_peers_to_topics r [] e = refl
  loop_peers_to_topics r (t ∷ ts) e =
      loop_peers_to_topics (remove_peer_subscription r p t) ts (rw (remove_absent r t e) e)
      ∙ remove_absent r t e

  loop_topic_has_peer :
      (r : Router) (ts : List TopicHash) (q : PeerId) (u : TopicHash)
      → topic_has_peer (remove_topics r p ts) q u
        ≡ (not (same q p && BTreeSet.contains u ts) && topic_has_peer r q u)
  unfolding remove_topics BTreeSet.contains
  loop_topic_has_peer r [] q u = ground arith
  loop_topic_has_peer r (t ∷ ts) q u = ground (
    arith,
    loop_topic_has_peer (remove_peer_subscription r p t) ts q u,
    topic_has_peer-remove r q p u t,
  )

  loop-IsTidy :
      (r : Router) (ts : List TopicHash)
      → IsTidy r.topics_to_peers
      → IsTidy (remove_topics r p ts).topics_to_peers
  unfolding remove_topics
  loop-IsTidy r [] h = h
  loop-IsTidy r (t ∷ ts) h =
      loop-IsTidy (remove_peer_subscription r p t) ts
        (unfold remove_peer_subscription in remove-IsTidy t p r.topics_to_peers h)

  loop_subscriptions :
      (r : Router) (ts : List TopicHash) → (remove_topics r p ts).subscriptions ≡ r.subscriptions
  unfolding remove_topics
  loop_subscriptions r [] = refl
  loop_subscriptions r (t ∷ ts) =
      loop_subscriptions (remove_peer_subscription r p t) ts
      ∙ (unfold remove_peer_subscription in refl)

  abbrev forget_entry : Router → Router
  forget_entry r = record r { peers_to_topics = HashMap.remove p r.peers_to_topics }

  get_forgotten : (r : Router) → HashMap.get p (forget_entry r).peers_to_topics ≡ none
  get_forgotten r = ground (arith, HashMap.get-remove p p r.peers_to_topics)

  remove_peer_found :
      (r : Router) {ts : BTreeSet TopicHash}
      → HashMap.get p r.peers_to_topics ≡ some ts
      → remove_peer r p ≡ remove_topics (forget_entry r) p ts
  unfolding remove_peer
  remove_peer_found r e = rw (e, remove_peer)

  remove_peer_missing : (r : Router) → HashMap.get p r.peers_to_topics ≡ none → remove_peer r p ≡ r
  unfolding remove_peer
  remove_peer_missing r e = rw (e, remove_peer)

  pub peer_has_topic-remove_peer :
      (r : Router) (q : PeerId) (u : TopicHash)
      → peer_has_topic (remove_peer r p) q u ≡ (not (same q p) && peer_has_topic r q u)
  peer_has_topic-remove_peer r q u = elim (Option-cases (HashMap.get p r.peers_to_topics)) [
    | inl e ↦ rw (remove_peer_missing r e) (ground (arith, e))
    | inr (ts, e) ↦
        rw (remove_peer_found r e, loop_peers_to_topics (forget_entry r) ts (get_forgotten r))
          (ground (arith, HashMap.get-remove q p r.peers_to_topics))
  ]

  -- If the router's tables agree, a removed peer is under no topic any more, and all others are
  -- under the topics that they were.
  pub topic_has_peer-remove_peer :
      (r : Router) (q : PeerId) (u : TopicHash)
      → IsCoherent r
      → topic_has_peer (remove_peer r p) q u ≡ (not (same q p) && topic_has_peer r q u)
  topic_has_peer-remove_peer r q u c = elim (Option-cases (HashMap.get p r.peers_to_topics)) [
    | inl e ↦ rw (remove_peer_missing r e) (ground (arith, e, c.agree q u))
    | inr (ts, e) ↦
        rw (remove_peer_found r e)
          (ground (arith, loop_topic_has_peer (forget_entry r) ts q u, e, c.agree q u))
  ]

  topics-remove_peer-IsTidy : (r : Router) → IsCoherent r → IsTidy (remove_peer r p).peers_to_topics
  topics-remove_peer-IsTidy r c j = elim (Option-cases (HashMap.get p r.peers_to_topics)) [
    | inl e ↦ rw (remove_peer_missing r e) (c.tidy_topics j)
    | inr (ts, e) ↦
        rw (remove_peer_found r e, loop_peers_to_topics (forget_entry r) ts (get_forgotten r))
          (ground (arith, HashMap.get-remove j p r.peers_to_topics, c.tidy_topics j))
  ]

  peers-remove_peer-IsTidy : (r : Router) → IsCoherent r → IsTidy (remove_peer r p).topics_to_peers
  peers-remove_peer-IsTidy r c = elim (Option-cases (HashMap.get p r.peers_to_topics)) [
    | inl e ↦ rw (remove_peer_missing r e) c.tidy_peers
    | inr (ts, e) ↦ rw (remove_peer_found r e) (loop-IsTidy (forget_entry r) ts c.tidy_peers)
  ]

  pub remove_peer_subscriptions_same :
      (r : Router) → (remove_peer r p).subscriptions ≡ r.subscriptions
  remove_peer_subscriptions_same r = elim (Option-cases (HashMap.get p r.peers_to_topics)) [
    | inl e ↦ rw (remove_peer_missing r e)
    | inr (ts, e) ↦ rw (remove_peer_found r e) (loop_subscriptions (forget_entry r) ts)
  ]

  pub remove_peer-IsCoherent : (r : Router) → IsCoherent r → IsCoherent (remove_peer r p)
  remove_peer-IsCoherent r c = record {
    agree = λ q u.
        ground (
          arith,
          c.agree q u,
          peer_has_topic-remove_peer r q u,
          topic_has_peer-remove_peer r q u c,
        );
    tidy_topics = topics-remove_peer-IsTidy r c;
    tidy_peers = peers-remove_peer-IsTidy r c;
    ascending = rw (remove_peer_subscriptions_same r) c.ascending;
  }
