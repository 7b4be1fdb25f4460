-- ===== src/Connections/Manager/Counts.antt =====
-- The connection manager of floodsub/src/connections/manager.rs against the swarm's own count of
-- the established connections of each peer.
use rust_libp2p_pubsub.Prelude.{
  ◌≡◌, refl, sym, ◌∙◌, true, false, none, [], ◌∷◌, arith, Option-cases, inl, inr, if◌then◌else◌, ℕ,
  ◌+◌, ◌-◌, length, length-append, ltb,
}
use rust_libp2p_pubsub.Prelude.Order.{ℕ-ord, same}
use rust_libp2p_pubsub.Libp2p.{PeerId, ConnectionId, Multiaddr}
use rust_libp2p_pubsub.Collections.Vec
use rust_libp2p_pubsub.Collections.Vec.{contains, push, retain_ne, IsNodup}
use rust_libp2p_pubsub.Collections.HashMap
use rust_libp2p_pubsub.Collections.VecMap.{values, values-add, values-drop_value}
use rust_libp2p_pubsub.Connections.Connection.{new_inbound, new_outbound}
use rust_libp2p_pubsub.Connections.Manager.{
  ConnectionManager, empty, peer_connections_count, active_peers, register_inbound,
  register_outbound, on_connection_established, on_connection_closed, on_address_change,
  update_connection_state,
}
use rust_libp2p_pubsub.Connections.Manager.Invariant.{
  is_known, is_up, belongs, counted, lookup, IsConsistent, empty-IsConsistent,
}
use rust_libp2p_pubsub.Connections.Manager.Preservation.{
  register-IsConsistent, deregister-IsConsistent, establish-IsConsistent, address-IsConsistent,
}

count-length :
    (m : ConnectionManager) (p : PeerId)
    → peer_connections_count m p ≡ length (values p m.peer_established_connections)
unfolding peer_connections_count
count-length m p = ground arith

-- The count after a report: one more for a connection that was pending, and only for its peer.
count-established :
    (m : ConnectionManager) (p q : PeerId) (c : ConnectionId)
    → is_known (lookup m c) ≡ true
    → peer_connections_count (on_connection_established m p c) q
      ≡ (if same q p then peer_connections_count m q + 1 else peer_connections_count m q)
unfolding on_connection_established
count-established m p q c known = elim (Option-cases (lookup m c)) [
  | inl e ↦ absurd (ground arith)
  | inr (conn, e) ↦
      rw (count-length _ q, count-length m q, e, update_connection_state)
        (ground (
          arith,
          values-add q p c m.peer_established_connections,
          length-append (values q m.peer_established_connections) (c ∷ []),
        ))
]

-- One less after an established connection is closed.
count-closed :
    (m : ConnectionManager) (p q : PeerId) (c : ConnectionId)
    → IsConsistent m
    → counted m p c ≡ true
    → peer_connections_count (on_connection_closed m p c) q
      ≡ (if same q p then peer_connections_count m q - 1 else peer_connections_count m q)
unfolding on_connection_closed
count-closed m p q c h there =
    rw (count-length _ q, count-length m q)
      (ground (
        arith,
        values-drop_value q p c m.peer_established_connections,
        Vec.length-retain_ne c (values p m.peer_established_connections),
        h.distinct p,
      ))

abbrev pub bump : PeerId → (PeerId → ℕ) → PeerId → ℕ
bump p n q = if same q p then n q + 1 else n q

abbrev pub lower : PeerId → (PeerId → ℕ) → PeerId → ℕ
lower p n q = if same q p then n q - 1 else n q

-- What the swarm may report: an id is new when it is registered, a connection is established once,
-- under the peer of its registration, and only an established connection is closed. `n` is the
-- swarm's count.
pub data Reach : ConnectionManager → (PeerId → ℕ) → Type 0 where
  start : Reach empty (λ p. 0)
  inbound :
      {m : ConnectionManager} {n : PeerId → ℕ} (c : ConnectionId) (p : PeerId) (l r : Multiaddr)
      → Reach m n
      → lookup m c ≡ none
      → Reach (register_inbound m c p l r) n
  outbound :
      {m : ConnectionManager} {n : PeerId → ℕ} (c : ConnectionId) (p : PeerId) (r : Multiaddr)
      → Reach m n
      → lookup m c ≡ none
      → Reach (register_outbound m c p r) n
  establish :
      {m : ConnectionManager} {n : PeerId → ℕ} (p : PeerId) (c : ConnectionId)
      → Reach m n
      → belongs m p c ≡ true
      → is_up (lookup m c) ≡ false
      → Reach (on_connection_established m p c) (bump p n)
  close :
      {m : ConnectionManager} {n : PeerId → ℕ} (p : PeerId) (c : ConnectionId)
      → Reach m n
      → counted m p c ≡ true
      → Reach (on_connection_closed m p c) (lower p n)
  move :
      {m : ConnectionManager} {n : PeerId → ℕ} (c : ConnectionId) (a : Multiaddr)
      → Reach m n
      → Reach (on_address_change m c a) n

-- In every history that the swarm may report the manager's tables agree: what stands under a peer
-- is known, and under no other peer, the established connections are those whose state says so,
-- each once, and no peer is kept without a connection.
pub Reach-IsConsistent : {m : ConnectionManager} {n : PeerId → ℕ} → Reach m n → IsConsistent m
unfolding register_inbound register_outbound on_connection_established on_connection_closed
    on_address_change
Reach-IsConsistent start = empty-IsConsistent
Reach-IsConsistent (inbound {m = m} c p l r s fresh) =
    register-IsConsistent m p c (Reach-IsConsistent s) (new_inbound l r) fresh
Reach-IsConsistent (outbound {m = m} c p r s fresh) =
    register-IsConsistent m p c (Reach-IsConsistent s) (new_outbound r) fresh
Reach-IsConsistent (establish {m = m} p c s mine down) =
    let h = Reach-IsConsistent s in
    establish-IsConsistent m p c h (mine ∙ sym (h.known p c mine)) down
Reach-IsConsistent (close {m = m} p c s there) =
    let h = Reach-IsConsistent s in
    deregister-IsConsistent m p c h (λ q e. h.owner q p c e (ground (arith, h.up p c)))
Reach-IsConsistent (move {m = m} c a s) = address-IsConsistent m c (Reach-IsConsistent s) a

same_count :
    (m m' : ConnectionManager) (p : PeerId)
    → m'.peer_established_connections ≡ m.peer_established_connections
    → peer_connections_count m' p ≡ peer_connections_count m p
unfolding peer_connections_count
same_count m m' p e = rw e

address_keeps :
    (m : ConnectionManager) (c : ConnectionId) (a : Multiaddr)
    → (on_address_change m c a).peer_established_connections ≡ m.peer_established_connections
unfolding on_address_change
address_keeps m c a = ground arith

-- In every history that the swarm may report the manager counts each peer's established
-- connections as the swarm does.
pub Reach-count :
    {m : ConnectionManager} {n : PeerId → ℕ}
    → Reach m n
    → (p : PeerId) → peer_connections_count m p ≡ n p
Reach-count start p = unfold peer_connections_count HashMap.get in refl
Reach-count (inbound {m = m} c q l r s fresh) p =
    same_count m (register_inbound m c q l r) p (unfold register_inbound in refl) ∙ Reach-count s p
Reach-count (outbound {m = m} c q r s fresh) p =
    same_count m (register_outbound m c q r) p (unfold register_outbound in refl) ∙ Reach-count s p
Reach-count (establish {m = m} q c s mine down) p =
    ground
      (arith, count-established m q p c ((Reach-IsConsistent s).known q c mine), Reach-count s p)
Reach-count (close {m = m} q c s there) p =
    ground (arith, count-closed m q p c (Reach-IsConsistent s) there, Reach-count s p)
Reach-count (move {m = m} c a s) p = same_count m _ p (address_keeps m c a) ∙ Reach-count s p

-- In every history that the swarm may report a peer is active exactly if the swarm counts a
-- connection of it.
pub Reach-active_peers :
    {m : ConnectionManager} {n : PeerId → ℕ}
    → Reach m n
    → (p : PeerId) → contains p (active_peers m) ≡ ltb 0 (n p)
unfolding active_peers
Reach-active_peers {m} s p = ground (
  arith,
  HashMap.contains-keys p m.peer_established_connections,
  (Reach-IsConsistent s).filled_established p,
  count-length m p,
  Reach-count s p,
)
