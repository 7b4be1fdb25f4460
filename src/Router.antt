-- ===== src/Router.antt =====
-- floodsub/src/router.rs: the subscription table of a node.
pub mod Invariant
pub mod RemovePeer
pub mod Refinement
mod Examples
use rust_libp2p_pubsub.Prelude.{
  ℕ, Bool, true, false, not, ◌&&◌, Option, none, some, List, [], ◌∷◌, is_empty, if◌then◌else◌,
}
use rust_libp2p_pubsub.Prelude.Order.{Ord, ℕ-ord}
use rust_libp2p_pubsub.Libp2p.{PeerId}
use rust_libp2p_pubsub.Topic.{TopicHash, TopicHash-ord}
use rust_libp2p_pubsub.Collections.BTreeSet
use rust_libp2p_pubsub.Collections.BTreeSet.{BTreeSet}
use rust_libp2p_pubsub.Collections.HashMap
use rust_libp2p_pubsub.Collections.SetMap.{SetMap, add_element, remove_element, remove_if_empty}

pub record Router : Type 0 where
  pub subscriptions : BTreeSet TopicHash
  pub peers_to_topics : SetMap PeerId TopicHash
  pub topics_to_peers : SetMap TopicHash PeerId

-- `Router::default()`
abbrev pub empty : Router
empty = record { subscriptions = []; peers_to_topics = []; topics_to_peers = [] }

unfoldable pub is_subscribed : Router → TopicHash → Bool
is_subscribed r topic = BTreeSet.contains topic r.subscriptions

-- `BTreeSet::insert` tells whether the element is new.
unfoldable pub subscribe : Router → TopicHash → Router × Bool
subscribe r topic = (
  record r { subscriptions = BTreeSet.insert topic r.subscriptions },
  not (BTreeSet.contains topic r.subscriptions),
)

-- `BTreeSet::remove` tells whether the element was there.
unfoldable pub unsubscribe : Router → TopicHash → Router × Bool
unsubscribe r topic = (
  record r { subscriptions = BTreeSet.remove topic r.subscriptions },
  BTreeSet.contains topic r.subscriptions,
)

unfoldable pub add_peer_subscription : Router → PeerId → TopicHash → Router
add_peer_subscription r peer topic = record r {
  peers_to_topics = add_element peer topic r.peers_to_topics;
  topics_to_peers = add_element topic peer r.topics_to_peers;
}

unfoldable pub add_peer_subscriptions : Router → PeerId → List TopicHash → Router
add_peer_subscriptions r peer [] = r
add_peer_subscriptions r peer (topic ∷ topics) =
    add_peer_subscriptions (add_peer_subscription r peer topic) peer topics

unfoldable pub remove_peer_subscription : Router → PeerId → TopicHash → Router
remove_peer_subscription r peer topic = record r {
  peers_to_topics = remove_if_empty peer (remove_element peer topic r.peers_to_topics);
  topics_to_peers = remove_if_empty topic (remove_element topic peer r.topics_to_peers);
}

-- The loop of `remove_peer`.
unfoldable pub remove_topics : Router → PeerId → List TopicHash → Router
remove_topics r peer [] = r
remove_topics r peer (topic ∷ topics) =
    remove_topics (remove_peer_subscription r peer topic) peer topics

unfoldable pub remove_peer : Router → PeerId → Router
remove_peer r peer = elim (HashMap.get peer r.peers_to_topics) [
  | none ↦ r
  | some topics ↦
      remove_topics (record r { peers_to_topics = HashMap.remove peer r.peers_to_topics }) peer
        topics
]

abbrev peer_subscriptions : Router → PeerId → Option (BTreeSet TopicHash)
peer_subscriptions r peer = HashMap.get peer r.peers_to_topics

abbrev subscription_peers : Router → TopicHash → Option (BTreeSet PeerId)
subscription_peers r topic = HashMap.get topic r.topics_to_peers

-- What `propagation_routes` asserts in a development build; its callers assert it.
abbrev pub propagation_routes_assertion : Router → TopicHash → Bool
propagation_routes_assertion r topic = is_subscribed r topic

-- The peers in the order of the set.
unfoldable pub propagation_routes : Router → TopicHash → List PeerId
propagation_routes r topic = elim (subscription_peers r topic) [ some peers ↦ peers | none ↦ [] ]
