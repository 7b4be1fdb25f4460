-- ===== src/Router/Invariant.antt =====
-- What holds of a router between two calls of floodsub/src/router.rs: its two tables agree.
use rust_libp2p_pubsub.Prelude.{◌≡◌, refl, Bool, not, ◌&&◌, ◌||◌, List, [], ◌∷◌, arith, ◌∙◌}
use rust_libp2p_pubsub.Prelude.Order.{ℕ-ord, same}
use rust_libp2p_pubsub.Libp2p.{PeerId}
use rust_libp2p_pubsub.Topic.{TopicHash, TopicHash-ord}
use rust_libp2p_pubsub.Collections.BTreeSet
use rust_libp2p_pubsub.Collections.BTreeSet.{IsAscending}
use rust_libp2p_pubsub.Collections.HashMap
use rust_libp2p_pubsub.Collections.SetMap.{
  IsTidy, has, remove_element, has-add_element, has-remove_element, has-remove_if_empty,
  add_element-IsTidy, remove-IsTidy,
}
use rust_libp2p_pubsub.Router.{
  Router, empty, subscribe, unsubscribe, add_peer_subscription, add_peer_subscriptions,
  remove_peer_subscription,
}

-- Whether the router knows that a peer subscribes to a topic, by either table.
abbrev pub peer_has_topic : Router → PeerId → TopicHash → Bool
peer_has_topic r peer topic = has peer topic r.peers_to_topics

abbrev pub topic_has_peer : Router → PeerId → TopicHash → Bool
topic_has_peer r peer topic = has topic peer r.topics_to_peers

-- The tables are the reverse of one another, hold no empty set, and every set is ascending.
pub record IsCoherent (r : Router) : Type 0 where
  pub agree : (p : PeerId) (t : TopicHash) → peer_has_topic r p t ≡ topic_has_peer r p t
  pub tidy_topics : IsTidy r.peers_to_topics
  pub tidy_peers : IsTidy r.topics_to_peers
  pub ascending : IsAscending r.subscriptions

pub empty-IsCoherent : IsCoherent empty
unfolding HashMap.get
empty-IsCoherent = record {
  agree = λ p t. refl;
  tidy_topics = λ p. tt;
  tidy_peers = λ t. tt;
  ascending = tt;
}

pub subscribe-IsCoherent :
    (r : Router) (topic : TopicHash) → IsCoherent r → IsCoherent (subscribe r topic).0
unfolding subscribe
subscribe-IsCoherent r topic c = record {
  agree = c.agree;
  tidy_topics = c.tidy_topics;
  tidy_peers = c.tidy_peers;
  ascending = BTreeSet.insert-IsAscending topic r.subscriptions c.ascending;
}

pub unsubscribe-IsCoherent :
    (r : Router) (topic : TopicHash) → IsCoherent r → IsCoherent (unsubscribe r topic).0
unfolding unsubscribe
unsubscribe-IsCoherent r topic c = record {
  agree = c.agree;
  tidy_topics = c.tidy_topics;
  tidy_peers = c.tidy_peers;
  ascending = BTreeSet.remove-IsAscending topic r.subscriptions c.ascending;
}

-- What each table says after an addition, and after a removal.
pub peer_has_topic-add :
    (r : Router) (q p : PeerId) (u t : TopicHash)
    → peer_has_topic (add_peer_subscription r p t) q u
      ≡ (same q p && same u t || peer_has_topic r q u)
unfolding add_peer_subscription
peer_has_topic-add r q p u t = has-add_element q p u t r.peers_to_topics

topic_has_peer-add :
    (r : Router) (q p : PeerId) (u t : TopicHash)
    → topic_has_peer (add_peer_subscription r p t) q u
      ≡ (same u t && same q p || topic_has_peer r q u)
unfolding add_peer_subscription
topic_has_peer-add r q p u t = has-add_element u t q p r.topics_to_peers

pub peer_has_topic-remove :
    (r : Router) (q p : PeerId) (u t : TopicHash)
    → peer_has_topic (remove_peer_subscription r p t) q u
      ≡ (not (same q p && same u t) && peer_has_topic r q u)
unfolding remove_peer_subscription
peer_has_topic-remove r q p u t =
    has-remove_if_empty q p u (remove_element p t r.peers_to_topics)
    ∙ has-remove_element q p u t r.peers_to_topics

pub topic_has_peer-remove :
    (r : Router) (q p : PeerId) (u t : TopicHash)
    → topic_has_peer (remove_peer_subscription r p t) q u
      ≡ (not (same u t && same q p) && topic_has_peer r q u)
unfolding remove_peer_subscription
topic_has_peer-remove r q p u t =
    has-remove_if_empty u t q (remove_element t p r.topics_to_peers)
    ∙ has-remove_element u t q p r.topics_to_peers

pub add_peer_subscription-IsCoherent :
    (r : Router) (p : PeerId) (t : TopicHash)
    → IsCoherent r
    → IsCoherent (add_peer_subscription r p t)
unfolding add_peer_subscription
add_peer_subscription-IsCoherent r p t c = record {
  agree = λ q u. ground (
    arith,
    c.agree q u,
    has-add_element q p u t r.peers_to_topics,
    has-add_element u t q p r.topics_to_peers,
  );
  tidy_topics = add_element-IsTidy p t r.peers_to_topics c.tidy_topics;
  tidy_peers = add_element-IsTidy t p r.topics_to_peers c.tidy_peers;
  ascending = c.ascending;
}

pub add_peer_subscriptions-IsCoherent :
    (r : Router) (p : PeerId) (ts : List TopicHash)
    → IsCoherent r
    → IsCoherent (add_peer_subscriptions r p ts)
unfolding add_peer_subscriptions
add_peer_subscriptions-IsCoherent r p [] c = c
add_peer_subscriptions-IsCoherent r p (t ∷ ts) c =
    add_peer_subscriptions-IsCoherent (add_peer_subscription r p t) p ts
      (add_peer_subscription-IsCoherent r p t c)

pub remove_peer_subscription-IsCoherent :
    (r : Router) (p : PeerId) (t : TopicHash)
    → IsCoherent r
    → IsCoherent (remove_peer_subscription r p t)
remove_peer_subscription-IsCoherent r p t c = record {
  agree = λ q u.
      ground (arith, c.agree q u, peer_has_topic-remove r q p u t, topic_has_peer-remove r q p u t);
  tidy_topics =
      unfold remove_peer_subscription in remove-IsTidy p t r.peers_to_topics c.tidy_topics;
  tidy_peers = unfold remove_peer_subscription in remove-IsTidy t p r.topics_to_peers c.tidy_peers;
  ascending = unfold remove_peer_subscription in c.ascending;
}
