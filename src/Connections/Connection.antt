-- ===== src/Connections/Connection.antt =====
-- floodsub/src/connections/connection.rs: one connection.
use rust_libp2p_pubsub.Libp2p.{Multiaddr}
use rust_libp2p_pubsub.Prelude.{Bool, true, false, Option, none, some}

pub data ConnectionDirection : Type 0 where
  inbound outbound : ConnectionDirection

pub data ConnectionState : Type 0 where
  connecting established : ConnectionState

pub record Connection : Type 0 where
  pub direction : ConnectionDirection
  pub state : ConnectionState
  pub local_addr : Option Multiaddr
  pub remote_addr : Multiaddr

abbrev pub new_inbound : Multiaddr → Multiaddr → Connection
new_inbound local_addr remote_addr = record {
  direction = inbound;
  state = connecting;
  local_addr = some local_addr;
  remote_addr = remote_addr;
}

abbrev pub new_outbound : Multiaddr → Connection
new_outbound remote_addr = record {
  direction = outbound;
  state = connecting;
  local_addr = none;
  remote_addr = remote_addr;
}

abbrev pub set_state : Connection → ConnectionState → Connection
set_state c state = record c { state = state }

abbrev pub set_remote_address : Connection → Multiaddr → Connection
set_remote_address c remote_addr = record c { remote_addr = remote_addr }

abbrev is_inbound_direction : ConnectionDirection → Bool
is_inbound_direction inbound = true
is_inbound_direction outbound = false

abbrev is_outbound_direction : ConnectionDirection → Bool
is_outbound_direction inbound = false
is_outbound_direction outbound = true

-- `state == ConnectionState::Established`
abbrev pub is_established_state : ConnectionState → Bool
is_established_state connecting = false
is_established_state established = true

abbrev is_inbound : Connection → Bool
is_inbound c = is_inbound_direction c.direction

abbrev is_outbound : Connection → Bool
is_outbound c = is_outbound_direction c.direction

abbrev pub is_established : Connection → Bool
is_established c = is_established_state c.state
