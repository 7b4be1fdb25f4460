-- ===== src/Connections/Manager.antt =====
-- floodsub/src/connections/manager.rs: the tables of connections, and which peers they belong to.
pub mod Invariant
pub mod Preservation
pub mod Counts
pub mod Peers
mod Examples
use rust_libp2p_pubsub.Prelude.{
  ℕ, Bool, true, false, Option, none, some, List, [], ◌∷◌, length, if◌then◌else◌,
}
use rust_libp2p_pubsub.Prelude.Order.{ℕ-ord}
use rust_libp2p_pubsub.Libp2p.{PeerId, ConnectionId, Multiaddr}
use rust_libp2p_pubsub.Collections.HashMap
use rust_libp2p_pubsub.Collections.HashMap.{HashMap}
use rust_libp2p_pubsub.Collections.VecMap.{VecMap, add, add_once, drop_value}
use rust_libp2p_pubsub.Connections.Connection.{
  Connection, ConnectionState, established, new_inbound, new_outbound, set_state,
  set_remote_address, is_established, is_established_state,
}

pub record ConnectionManager : Type 0 where
  pub connections : HashMap ConnectionId Connection
  pub peer_connections : VecMap PeerId ConnectionId
  pub peer_established_connections : VecMap PeerId ConnectionId

abbrev pub empty : ConnectionManager
empty = record { connections = []; peer_connections = []; peer_established_connections = [] }

unfoldable pub register_connection :
    ConnectionManager → PeerId → ConnectionId → Connection → ConnectionManager
register_connection m peer connection_id connection = record {
  connections = HashMap.insert connection_id connection m.connections;
  peer_connections = add_once peer connection_id m.peer_connections;
  peer_established_connections =
      if is_established connection
      then add_once peer connection_id m.peer_established_connections
      else m.peer_established_connections;
}

unfoldable pub deregister_connection : ConnectionManager → PeerId → ConnectionId → ConnectionManager
deregister_connection m peer connection = record {
  connections = HashMap.remove connection m.connections;
  peer_connections = drop_value peer connection m.peer_connections;
  peer_established_connections = drop_value peer connection m.peer_established_connections;
}

unfoldable pub update_connection_state :
    ConnectionManager → PeerId → ConnectionId → ConnectionState → ConnectionManager
update_connection_state m peer connection state = elim (HashMap.get connection m.connections) [
  | none ↦ m
  | some conn ↦ record {
    connections = HashMap.insert connection (set_state conn state) m.connections;
    peer_connections = m.peer_connections;
    peer_established_connections =
        if is_established_state state
        then add peer connection m.peer_established_connections
        else m.peer_established_connections;
  }
]

unfoldable pub update_connection_remote_address :
    ConnectionManager → ConnectionId → Multiaddr → ConnectionManager
update_connection_remote_address m connection remote_addr =
    elim (HashMap.get connection m.connections) [
      | none ↦ m
      | some conn ↦ record m {
        connections = HashMap.insert connection (set_remote_address conn remote_addr) m.connections;
      }
    ]

-- `map_or(0, |v| v.len())`
abbrev len_or_zero : Option (List ConnectionId) → ℕ
len_or_zero none = 0
len_or_zero (some v) = length v

unfoldable pub peer_connections_count : ConnectionManager → PeerId → ℕ
peer_connections_count m peer = len_or_zero (HashMap.get peer m.peer_established_connections)

unfoldable pub active_peers : ConnectionManager → List PeerId
active_peers m = HashMap.keys m.peer_established_connections

unfoldable pub active_peers_count : ConnectionManager → ℕ
active_peers_count m = length m.peer_established_connections

unfoldable pub register_inbound :
    ConnectionManager → ConnectionId → PeerId → Multiaddr → Multiaddr → ConnectionManager
unfolding register_connection
register_inbound m connection peer local_addr remote_addr =
    register_connection m peer connection (new_inbound local_addr remote_addr)

unfoldable pub register_outbound :
    ConnectionManager → ConnectionId → PeerId → Multiaddr → ConnectionManager
unfolding register_connection
register_outbound m connection peer remote_addr =
    register_connection m peer connection (new_outbound remote_addr)

unfoldable pub on_connection_established :
    ConnectionManager → PeerId → ConnectionId → ConnectionManager
unfolding update_connection_state
on_connection_established m peer connection = update_connection_state m peer connection established

unfoldable pub on_connection_closed : ConnectionManager → PeerId → ConnectionId → ConnectionManager
unfolding deregister_connection
on_connection_closed m peer connection = deregister_connection m peer connection

unfoldable pub on_address_change : ConnectionManager → ConnectionId → Multiaddr → ConnectionManager
unfolding update_connection_remote_address
on_address_change m connection new_address =
    update_connection_remote_address m connection new_address
