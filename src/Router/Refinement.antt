-- ===== src/Router/Refinement.antt =====
-- The router of floodsub/src/router.rs against its contract: a set of own topics and a relation
-- between peers and topics. Calls are data, so that histories are lists of calls.
use rust_libp2p_pubsub.Prelude.{
  ◌≡◌, refl, ap, sym, ◌∙◌, Bool, false, not, ◌&&◌, ◌||◌, List, [], ◌∷◌, arith,
}
use rust_libp2p_pubsub.Prelude.Order.{ℕ-ord, same}
use rust_libp2p_pubsub.Libp2p.{PeerId}
use rust_libp2p_pubsub.Topic.{TopicHash, TopicHash-ord}
use rust_libp2p_pubsub.Collections.BTreeSet
use rust_libp2p_pubsub.Collections.BTreeSet.{BTreeSet, IsAscending}
use rust_libp2p_pubsub.Collections.HashMap
use rust_libp2p_pubsub.Router.{
  Router, empty, is_subscribed, subscribe, unsubscribe, add_peer_subscription,
  add_peer_subscriptions, remove_peer_subscription, remove_peer, propagation_routes,
}
use rust_libp2p_pubsub.Router.Invariant.{
  IsCoherent, peer_has_topic, topic_has_peer, empty-IsCoherent, subscribe-IsCoherent,
  unsubscribe-IsCoherent, add_peer_subscription-IsCoherent, add_peer_subscriptions-IsCoherent,
  remove_peer_subscription-IsCoherent, peer_has_topic-add, peer_has_topic-remove,
}
use rust_libp2p_pubsub.Router.RemovePeer.{
  peer_has_topic-remove_peer, remove_peer-IsCoherent, remove_peer_subscriptions_same,
}

pub data Call : Type 0 where
  subscribes unsubscribes : TopicHash → Call
  adds removes : PeerId → TopicHash → Call
  adds_all : PeerId → List TopicHash → Call
  drops : PeerId → Call

unfoldable pub step : Router → Call → Router
step r (subscribes t) = (subscribe r t).0
step r (unsubscribes t) = (unsubscribe r t).0
step r (adds p t) = add_peer_subscription r p t
step r (removes p t) = remove_peer_subscription r p t
step r (adds_all p ts) = add_peer_subscriptions r p ts
step r (drops p) = remove_peer r p

unfoldable pub run : Router → List Call → Router
run r [] = r
run r (c ∷ cs) = run (step r c) cs

-- The contract: what a call does to the answer for one peer and one topic.
unfoldable pub spec_peer : Call → PeerId → TopicHash → Bool → Bool
spec_peer (subscribes t) q u b = b
spec_peer (unsubscribes t) q u b = b
spec_peer (adds p t) q u b = same q p && same u t || b
spec_peer (removes p t) q u b = not (same q p && same u t) && b
spec_peer (adds_all p ts) q u b = same q p && BTreeSet.contains u ts || b
spec_peer (drops p) q u b = not (same q p) && b

-- The contract: what a call does to the answer for one of the node's own topics.
unfoldable pub spec_own : Call → TopicHash → Bool → Bool
spec_own (subscribes t) u b = same u t || b
spec_own (unsubscribes t) u b = not (same u t) && b
spec_own _ u b = b

unfoldable pub spec_peer_run : List Call → PeerId → TopicHash → Bool → Bool
spec_peer_run [] q u b = b
spec_peer_run (c ∷ cs) q u b = spec_peer_run cs q u (spec_peer c q u b)

unfoldable pub spec_own_run : List Call → TopicHash → Bool → Bool
spec_own_run [] u b = b
spec_own_run (c ∷ cs) u b = spec_own_run cs u (spec_own c u b)

step-IsCoherent : (r : Router) (c : Call) → IsCoherent r → IsCoherent (step r c)
unfolding step
step-IsCoherent r (subscribes t) h = subscribe-IsCoherent r t h
step-IsCoherent r (unsubscribes t) h = unsubscribe-IsCoherent r t h
step-IsCoherent r (adds p t) h = add_peer_subscription-IsCoherent r p t h
step-IsCoherent r (removes p t) h = remove_peer_subscription-IsCoherent r p t h
step-IsCoherent r (adds_all p ts) h = add_peer_subscriptions-IsCoherent r p ts h
step-IsCoherent r (drops p) h = remove_peer-IsCoherent p r h

-- Any calls on a router whose tables agree leave a router whose tables agree: each is the inverse
-- of the other, their sets are ascending and not empty, and the own topics are ascending.
pub run-IsCoherent : (r : Router) (cs : List Call) → IsCoherent r → IsCoherent (run r cs)
unfolding run
run-IsCoherent r [] h = h
run-IsCoherent r (c ∷ cs) h = run-IsCoherent (step r c) cs (step-IsCoherent r c h)

add_all_relation :
    (r : Router) (p : PeerId) (ts : List TopicHash) (q : PeerId) (u : TopicHash)
    → peer_has_topic (add_peer_subscriptions r p ts) q u
      ≡ (same q p && BTreeSet.contains u ts || peer_has_topic r q u)
unfolding add_peer_subscriptions BTreeSet.contains
add_all_relation r p [] q u = ground arith
add_all_relation r p (t ∷ ts) q u =
    ground
      (arith, add_all_relation (add_peer_subscription r p t) p ts q u, peer_has_topic-add r q p u t)

step_relation :
    (r : Router) (c : Call) (q : PeerId) (u : TopicHash)
    → peer_has_topic (step r c) q u ≡ spec_peer c q u (peer_has_topic r q u)
unfolding step spec_peer
step_relation r (subscribes t) q u = unfold subscribe in refl
step_relation r (unsubscribes t) q u = unfold unsubscribe in refl
step_relation r (adds p t) q u = peer_has_topic-add r q p u t
step_relation r (removes p t) q u = peer_has_topic-remove r q p u t
step_relation r (adds_all p ts) q u = add_all_relation r p ts q u
step_relation r (drops p) q u = peer_has_topic-remove_peer p r q u

add_all_subscriptions :
    (r : Router) (p : PeerId) (ts : List TopicHash)
    → (add_peer_subscriptions r p ts).subscriptions ≡ r.subscriptions
unfolding add_peer_subscriptions
add_all_subscriptions r p [] = refl
add_all_subscriptions r p (t ∷ ts) =
    add_all_subscriptions (add_peer_subscription r p t) p ts
    ∙ (unfold add_peer_subscription in refl)

pub step_own :
    (r : Router) (c : Call) (u : TopicHash)
    → is_subscribed (step r c) u ≡ spec_own c u (is_subscribed r u)
unfolding step spec_own is_subscribed
step_own r (subscribes t) u = unfold subscribe in BTreeSet.contains-insert u t r.subscriptions
step_own r (unsubscribes t) u = unfold unsubscribe in BTreeSet.contains-remove u t r.subscriptions
step_own r (adds p t) u = unfold add_peer_subscription in refl
step_own r (removes p t) u = unfold remove_peer_subscription in refl
step_own r (adds_all p ts) u = ap (BTreeSet.contains u) (add_all_subscriptions r p ts)
step_own r (drops p) u = ap (BTreeSet.contains u) (remove_peer_subscriptions_same p r)

pub run_relation :
    (r : Router) (cs : List Call) (q : PeerId) (u : TopicHash)
    → peer_has_topic (run r cs) q u ≡ spec_peer_run cs q u (peer_has_topic r q u)
unfolding run spec_peer_run
run_relation r [] q u = refl
run_relation r (c ∷ cs) q u =
    run_relation (step r c) cs q u ∙ ap (spec_peer_run cs q u) (step_relation r c q u)

run_own :
    (r : Router) (cs : List Call) (u : TopicHash)
    → is_subscribed (run r cs) u ≡ spec_own_run cs u (is_subscribed r u)
unfolding run spec_own_run
run_own r [] u = refl
run_own r (c ∷ cs) u = run_own (step r c) cs u ∙ ap (spec_own_run cs u) (step_own r c u)

pub contains_routes :
    (r : Router) (t : TopicHash) (q : PeerId)
    → BTreeSet.contains q (propagation_routes r t) ≡ topic_has_peer r q t
unfolding propagation_routes BTreeSet.contains
contains_routes r t q = ground arith

pub propagation_routes-IsAscending :
    (r : Router) (t : TopicHash) → IsCoherent r → IsAscending (propagation_routes r t)
unfolding propagation_routes
propagation_routes-IsAscending r t c = ground (arith, c.tidy_peers t)

-- After any calls on a new router the routes of a topic hold exactly the peers that the contract,
-- a relation between peers and topics, relates to it, in ascending order, and the node's own
-- topics are those of the contract.
pub run-routes :
    (cs : List Call) (t : TopicHash) (q : PeerId)
    → (BTreeSet.contains q (propagation_routes (run empty cs) t) ≡ spec_peer_run cs q t false)
      × IsAscending (propagation_routes (run empty cs) t)
      × (is_subscribed (run empty cs) t ≡ spec_own_run cs t false)
run-routes cs t q =
    let c = run-IsCoherent empty cs empty-IsCoherent in
    (
      contains_routes (run empty cs) t q
          ∙ sym (c.agree q t)
          ∙ run_relation empty cs q t
          ∙ (unfold HashMap.get in refl),
      propagation_routes-IsAscending (run empty cs) t c,
      run_own empty cs t ∙ (unfold is_subscribed BTreeSet.contains in refl),
    )
