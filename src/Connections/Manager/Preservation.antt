-- ===== src/Connections/Manager/Preservation.antt =====
-- Each operation of floodsub/src/connections/manager.rs keeps the tables consistent.
use rust_libp2p_pubsub.Prelude.{
  ◌≡◌, true, false, ◌&&◌, ◌||◌, none, arith, Option-cases, Bool-cases, inl, inr, if◌then◌else◌,
}
use rust_libp2p_pubsub.Prelude.Order.{ℕ-ord, same}
use rust_libp2p_pubsub.Libp2p.{PeerId, ConnectionId, Multiaddr}
use rust_libp2p_pubsub.Collections.Vec
use rust_libp2p_pubsub.Collections.Vec.{contains, push, push_once, retain_ne, IsNodup}
use rust_libp2p_pubsub.Collections.HashMap
use rust_libp2p_pubsub.Collections.VecMap.{
  VecMap, values, add_once, values-add, values-add_once, values-drop_value, add-IsFilled,
  add_once-IsFilled, drop_value-IsFilled,
}
use rust_libp2p_pubsub.Connections.Connection.{
  Connection, established, is_established, set_state, set_remote_address,
}
use rust_libp2p_pubsub.Connections.Manager.{
  ConnectionManager, register_connection, deregister_connection, update_connection_state,
  update_connection_remote_address,
}
use rust_libp2p_pubsub.Connections.Manager.Invariant.{
  is_known, is_up, belongs, counted, lookup, IsConsistent, belongs-add_once, belongs-add,
  belongs-drop_value,
}

module _ (m : ConnectionManager) (p : PeerId) (c : ConnectionId) (h : IsConsistent m) where
  -- An id with no entry stands under no peer.
  not_belongs : lookup m c ≡ none → (q : PeerId) → belongs m q c ≡ false
  not_belongs fresh q = ground (arith, h.known q c)

  abbrev established_after : Connection → VecMap PeerId ConnectionId
  established_after conn =
      if is_established conn
      then add_once p c m.peer_established_connections
      else m.peer_established_connections

  counted-register :
      (conn : Connection) (q : PeerId) (d : ConnectionId)
      → contains d (values q (established_after conn))
        ≡ (is_established conn && same q p && same d c || counted m q d)
  counted-register conn q d = elim (Bool-cases (is_established conn)) [
    | inl e ↦ rw e (belongs-add_once q p d c m.peer_established_connections)
    | inr e ↦ rw e
  ]

  pub register-IsConsistent :
      (conn : Connection) → lookup m c ≡ none → IsConsistent (register_connection m p c conn)
  unfolding register_connection
  register-IsConsistent conn fresh = record {
    known = λ q d. ground (
      arith,
      h.known q d,
      HashMap.get-insert d c conn m.connections,
      belongs-add_once q p d c m.peer_connections,
    );
    owner = λ q r d. ground (
      arith,
      h.owner q r d,
      not_belongs fresh q,
      not_belongs fresh r,
      belongs-add_once q p d c m.peer_connections,
      belongs-add_once r p d c m.peer_connections,
    );
    up = λ q d. ground (
      arith,
      h.up q d,
      not_belongs fresh q,
      HashMap.get-insert d c conn m.connections,
      belongs-add_once q p d c m.peer_connections,
      counted-register conn q d,
    );
    distinct = λ q. elim (Bool-cases (is_established conn)) [
      | inl e ↦ rw e (
          rw (values-add_once q p c m.peer_established_connections) (
            ground (
              arith,
              h.distinct q,
              h.distinct p,
              Vec.push_once-IsNodup c (values p m.peer_established_connections),
            )))
      | inr e ↦ rw e (h.distinct q)
    ];
    filled = add_once-IsFilled p c m.peer_connections h.filled;
    filled_established = elim (Bool-cases (is_established conn)) [
      | inl e ↦ rw e (add_once-IsFilled p c m.peer_established_connections h.filled_established)
      | inr e ↦ rw e h.filled_established
    ];
  }

  -- A connection is taken out under the peer that it stands under, if it stands under one.
  pub deregister-IsConsistent :
      ((q : PeerId) → belongs m q c ≡ true → q ≡ p) → IsConsistent (deregister_connection m p c)
  unfolding deregister_connection
  deregister-IsConsistent own = record {
    known = λ q d. ground (
      arith,
      h.known q d,
      own q,
      HashMap.get-remove d c m.connections,
      belongs-drop_value q p d c m.peer_connections,
    );
    owner = λ q r d. ground (
      arith,
      h.owner q r d,
      belongs-drop_value q p d c m.peer_connections,
      belongs-drop_value r p d c m.peer_connections,
    );
    up = λ q d. ground (
      arith,
      h.up q d,
      own q,
      HashMap.get-remove d c m.connections,
      belongs-drop_value q p d c m.peer_connections,
      belongs-drop_value q p d c m.peer_established_connections,
    );
    distinct = λ q. rw (values-drop_value q p c m.peer_established_connections) (
        ground (
          arith,
          h.distinct q,
          h.distinct p,
          Vec.retain_ne-IsNodup c (values p m.peer_established_connections),
        ));
    filled = drop_value-IsFilled p c m.peer_connections h.filled;
    filled_established =
        drop_value-IsFilled p c m.peer_established_connections h.filled_established;
  }

  -- A connection that is reported as established is pending under the peer, or unknown.
  pub establish-IsConsistent :
      (belongs m p c ≡ is_known (lookup m c))
      → is_up (lookup m c) ≡ false
      → IsConsistent (update_connection_state m p c established)
  unfolding update_connection_state
  establish-IsConsistent mine down = elim (Option-cases (lookup m c)) [
    | inl e ↦ rw (e, update_connection_state) h
    | inr (conn, e) ↦
        rw (e, update_connection_state)
          (record {
            known = λ q d. ground (
              arith,
              h.known q d,
              HashMap.get-insert d c (set_state conn established) m.connections,
            );
            owner = h.owner;
            up = λ q d. ground (
              arith,
              h.up q d,
              h.owner q p c,
              e,
              HashMap.get-insert d c (set_state conn established) m.connections,
              belongs-add q p d c m.peer_established_connections,
            );
            distinct = λ q. rw (values-add q p c m.peer_established_connections) (
                ground (
                  arith,
                  h.distinct q,
                  h.distinct p,
                  h.up p c,
                  Vec.push-IsNodup c (values p m.peer_established_connections),
                ));
            filled = h.filled;
            filled_established =
                add-IsFilled p c m.peer_established_connections h.filled_established;
          })
  ]

module _ (m : ConnectionManager) (c : ConnectionId) (h : IsConsistent m) where
  pub address-IsConsistent :
      (addr : Multiaddr) → IsConsistent (update_connection_remote_address m c addr)
  unfolding update_connection_remote_address
  address-IsConsistent addr = elim (Option-cases (lookup m c)) [
    | inl e ↦ rw (e, update_connection_remote_address) h
    | inr (conn, e) ↦
        rw (e, update_connection_remote_address)
          (record {
            known = λ q d. ground (
              arith,
              h.known q d,
              HashMap.get-insert d c (set_remote_address conn addr) m.connections,
            );
            owner = h.owner;
            up = λ q d. ground (
              arith,
              h.up q d,
              e,
              HashMap.get-insert d c (set_remote_address conn addr) m.connections,
            );
            distinct = h.distinct;
            filled = h.filled;
            filled_established = h.filled_established;
          })
  ]
