-- ===== src/Router/Examples.antt =====
-- Runs of the router of floodsub/src/router.rs.
use rust_libp2p_pubsub.Prelude.{◌≡◌, refl, Bool, true, false, List, [], ◌∷◌, not, ◌&&◌}
use rust_libp2p_pubsub.Topic.{TopicHash, TopicHash-ord}
use rust_libp2p_pubsub.Prelude.Order.{ℕ-ord}
use rust_libp2p_pubsub.Collections.BTreeSet
use rust_libp2p_pubsub.Collections.BTreeSet.{IsAscending}
use rust_libp2p_pubsub.Router.{empty, is_subscribed, propagation_routes}
use rust_libp2p_pubsub.Router.Refinement.{
  Call, subscribes, adds, removes, run, run-routes, spec_peer, spec_peer_run, spec_own,
  spec_own_run,
}
use rust_libp2p_pubsub.Fixtures.{news, sport}

abbrev calls : List Call
calls = adds 1 news ∷ adds 2 news ∷ adds 2 sport ∷ removes 1 news ∷ subscribes news ∷ []

run-routes_example :
    (BTreeSet.contains 2 (propagation_routes (run empty calls) news) ≡ true)
    × IsAscending (propagation_routes (run empty calls) news)
    × (is_subscribed (run empty calls) news ≡ true)
unfolding spec_peer_run spec_peer spec_own_run spec_own rust_libp2p_pubsub.Prelude.ℕ_discrete
    rust_libp2p_pubsub.Topic.TopicHash-discrete
run-routes_example = run-routes calls news 2
