-- ===== src/Connections/Manager/Examples.antt =====
-- Runs of the manager of floodsub/src/connections/manager.rs.
use rust_libp2p_pubsub.Prelude.{ℕ, ◌≡◌, refl, Bool, true, false, arith}
use rust_libp2p_pubsub.Prelude.Order.{ℕ-ord}
use rust_libp2p_pubsub.Libp2p.{PeerId}
use rust_libp2p_pubsub.Collections.Vec.{contains, IsNodup}
use rust_libp2p_pubsub.Collections.HashMap
use rust_libp2p_pubsub.Collections.VecMap.{add_once}
use rust_libp2p_pubsub.Connections.Manager.{
  ConnectionManager, empty, register_inbound, register_outbound, register_connection,
  on_connection_established, peer_connections_count, active_peers,
}
use rust_libp2p_pubsub.Connections.Manager.Invariant.{IsConsistent}
use rust_libp2p_pubsub.Connections.Manager.Counts.{
  Reach, start, inbound, outbound, establish, bump, Reach-IsConsistent, Reach-count,
}
use rust_libp2p_pubsub.Connections.Manager.Peers.{active_peers_lem}

abbrev registered : ConnectionManager
registered = register_outbound (register_inbound empty 10 1 100 101) 11 2 102

abbrev up : ConnectionManager
up = on_connection_established registered 1 10

abbrev counts : PeerId → ℕ
counts = bump 1 (λ p. 0)

up-Reach : Reach up counts
unfolding register_inbound register_outbound register_connection HashMap.get HashMap.insert add_once
    contains rust_libp2p_pubsub.Prelude.ℕ_discrete
up-Reach = establish 1 10 (outbound 11 2 102 (inbound 10 1 100 101 start refl) refl) refl refl

Reach-IsConsistent_example : IsConsistent up
Reach-IsConsistent_example = Reach-IsConsistent up-Reach

Reach-count_example : peer_connections_count up 1 ≡ 1
unfolding rust_libp2p_pubsub.Prelude.ℕ_discrete
Reach-count_example = Reach-count up-Reach 1

active_peers_lem_example : IsNodup (active_peers up) × (contains 2 (active_peers up) ≡ false)
unfolding rust_libp2p_pubsub.Prelude.ℕ_discrete
active_peers_lem_example = active_peers_lem up-Reach 2
