-- ===== src/Connections/Manager/Peers.antt =====
-- `active_peers` of floodsub/src/connections/manager.rs.
use rust_libp2p_pubsub.Prelude.{arith, ℕ, ◌≡◌, ltb}
use rust_libp2p_pubsub.Prelude.Order.{ℕ-ord}
use rust_libp2p_pubsub.Libp2p.{PeerId, ConnectionId}
use rust_libp2p_pubsub.Collections.Vec.{contains, push, retain_ne, IsNodup}
use rust_libp2p_pubsub.Collections.HashMap
use rust_libp2p_pubsub.Collections.VecMap.{VecMap, values, add, drop_value}
use rust_libp2p_pubsub.Connections.Manager.{
  ConnectionManager, active_peers, register_inbound, register_outbound, on_connection_established,
  on_connection_closed, on_address_change,
}
use rust_libp2p_pubsub.Connections.Manager.Counts.{
  Reach, Reach-active_peers, start, inbound, outbound, establish, close, move,
}

add-IsNodup :
    (p : PeerId) (c : ConnectionId) (t : VecMap PeerId ConnectionId)
    → IsNodup (HashMap.keys t)
    → IsNodup (HashMap.keys (add p c t))
unfolding add
add-IsNodup p c t n = HashMap.insert-IsNodup p (push (values p t) c) t n

drop_value-IsNodup :
    (p : PeerId) (c : ConnectionId) (t : VecMap PeerId ConnectionId)
    → IsNodup (HashMap.keys t)
    → IsNodup (HashMap.keys (drop_value p c t))
unfolding drop_value
drop_value-IsNodup p c t n =
    ground
      (arith, HashMap.remove-IsNodup p t, HashMap.insert-IsNodup p (retain_ne c (values p t)) t)

-- In every history that the swarm may report no peer stands twice among the active ones.
pub active_peers-IsNodup :
    {m : ConnectionManager} {n : PeerId → ℕ} → Reach m n → IsNodup (active_peers m)
unfolding active_peers register_inbound register_outbound on_connection_established
    on_connection_closed on_address_change
active_peers-IsNodup start = tt
active_peers-IsNodup (inbound c p l r s fresh) = active_peers-IsNodup s
active_peers-IsNodup (outbound c p r s fresh) = active_peers-IsNodup s
active_peers-IsNodup (establish {m = m} p c s mine down) =
    ground (arith, active_peers-IsNodup s, add-IsNodup p c m.peer_established_connections)
active_peers-IsNodup (close {m = m} p c s there) =
    drop_value-IsNodup p c m.peer_established_connections (active_peers-IsNodup s)
active_peers-IsNodup (move c a s) = ground (arith, active_peers-IsNodup s)

-- In every history that the swarm may report no peer stands twice among the active ones, and a
-- peer is active exactly if the swarm counts a connection of it.
pub active_peers_lem :
    {m : ConnectionManager} {n : PeerId → ℕ}
    → Reach m n
    → (p : PeerId) → IsNodup (active_peers m) × (contains p (active_peers m) ≡ ltb 0 (n p))
active_peers_lem r p = (active_peers-IsNodup r, Reach-active_peers r p)
