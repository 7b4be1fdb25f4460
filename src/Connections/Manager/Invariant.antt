-- ===== src/Connections/Manager/Invariant.antt =====
-- What holds of the tables of floodsub/src/connections/manager.rs, provided that the swarm uses a
-- connection id for one connection only and reports what happens to it under its own peer.
use rust_libp2p_pubsub.Prelude.{
  ◌≡◌, refl, Bool, true, false, not, ◌&&◌, ◌||◌, Option, none, some, arith,
}
use rust_libp2p_pubsub.Prelude.Order.{ℕ-ord, same}
use rust_libp2p_pubsub.Libp2p.{PeerId, ConnectionId}
use rust_libp2p_pubsub.Collections.Vec
use rust_libp2p_pubsub.Collections.Vec.{contains, push, push_once, retain_ne, IsNodup}
use rust_libp2p_pubsub.Collections.HashMap
use rust_libp2p_pubsub.Collections.VecMap.{
  VecMap, IsFilled, values, add, add_once, drop_value, values-add, values-add_once,
  values-drop_value,
}
use rust_libp2p_pubsub.Connections.Connection.{Connection, is_established}
use rust_libp2p_pubsub.Connections.Manager.{ConnectionManager, empty}

abbrev pub is_known : Option Connection → Bool
is_known none = false
is_known (some c) = true

abbrev pub is_up : Option Connection → Bool
is_up none = false
is_up (some c) = is_established c

-- Whether a connection stands under a peer, in either table of peers.
abbrev pub belongs : ConnectionManager → PeerId → ConnectionId → Bool
belongs m p c = contains c (values p m.peer_connections)

abbrev pub counted : ConnectionManager → PeerId → ConnectionId → Bool
counted m p c = contains c (values p m.peer_established_connections)

abbrev pub lookup : ConnectionManager → ConnectionId → Option Connection
lookup m c = HashMap.get c m.connections

pub record IsConsistent (m : ConnectionManager) : Type 0 where
  -- What stands under a peer has an entry, and no connection stands under two peers.
  pub known : (p : PeerId) (c : ConnectionId) → belongs m p c ≡ true → is_known (lookup m c) ≡ true
  pub owner :
      (p q : PeerId) (c : ConnectionId) → belongs m p c ≡ true → belongs m q c ≡ true → p ≡ q
  -- The table of established connections holds those whose state says so.
  pub up : (p : PeerId) (c : ConnectionId) → counted m p c ≡ (belongs m p c && is_up (lookup m c))
  pub distinct : (p : PeerId) → IsNodup (values p m.peer_established_connections)
  -- No peer is kept with no connection.
  pub filled : (p : PeerId) → IsFilled (HashMap.get p m.peer_connections)
  pub filled_established : (p : PeerId) → IsFilled (HashMap.get p m.peer_established_connections)

pub empty-IsConsistent : IsConsistent empty
unfolding HashMap.get contains
empty-IsConsistent = record {
  known = λ p c e. cc;
  owner = λ p q c e f. cc;
  up = λ p c. refl;
  distinct = λ p. tt;
  filled = λ p. tt;
  filled_established = λ p. tt;
}

pub belongs-add_once :
    (q p : PeerId) (d c : ConnectionId) (t : VecMap PeerId ConnectionId)
    → contains d (values q (add_once p c t)) ≡ (same q p && same d c || contains d (values q t))
belongs-add_once q p d c t =
    rw (values-add_once q p c t) (ground (arith, Vec.contains-push_once d c (values p t)))

pub belongs-add :
    (q p : PeerId) (d c : ConnectionId) (t : VecMap PeerId ConnectionId)
    → contains d (values q (add p c t)) ≡ (same q p && same d c || contains d (values q t))
belongs-add q p d c t = rw (values-add q p c t) (ground (arith, Vec.contains-push d c (values p t)))

pub belongs-drop_value :
    (q p : PeerId) (d c : ConnectionId) (t : VecMap PeerId ConnectionId)
    → contains d (values q (drop_value p c t))
      ≡ (not (same q p && same d c) && contains d (values q t))
belongs-drop_value q p d c t =
    rw (values-drop_value q p c t) (ground (arith, Vec.contains-retain_ne d c (values p t)))
