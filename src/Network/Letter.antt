-- ===== src/Network/Letter.antt =====
-- A run of two nodes of floodsub/src/behaviour.rs: they meet, subscribe to a topic and hear each other
-- out, and then the first publishes.
use rust_libp2p_pubsub.Prelude.{
  ℕ, ◌≡◌, ◌≢◌, refl, true, false, none, some, [], ◌∷◌, arith, length, ◌&&◌, ltb, if◌then◌else◌,
  List,
}
use rust_libp2p_pubsub.Prelude.Outcome.{returned}
use rust_libp2p_pubsub.Config
use rust_libp2p_pubsub.Libp2p.{PeerId}
use rust_libp2p_pubsub.Router
use rust_libp2p_pubsub.SeqNo
use rust_libp2p_pubsub.SeqNo.{linear}
use rust_libp2p_pubsub.Collections.HashMap
use rust_libp2p_pubsub.Connections.Manager.Invariant.{belongs, lookup, is_up}
use rust_libp2p_pubsub.Frame.SubOpts
use rust_libp2p_pubsub.Frame.Message.Fields.{published}
use rust_libp2p_pubsub.Behaviour.{Behaviour, new, message}
use rust_libp2p_pubsub.Behaviour.Swarm.{own_subscriptions}
use rust_libp2p_pubsub.Behaviour.Sending.{told}
use rust_libp2p_pubsub.Behaviour.Subscribing.{announcement}
use rust_libp2p_pubsub.Behaviour.Publishing.{publication}
use rust_libp2p_pubsub.Network.{
  Net, initial, register_inbound_at, register_outbound_at, establish_at, subscribe_at, publish_at,
  receive_at,
}
use rust_libp2p_pubsub.Network.Reachable.{
  Reachable, Sendable, start, next, registers_inbound, registers_outbound, establishes, subscribes,
}
use rust_libp2p_pubsub.Network.Exchange.{exchange_at, exchanges_at, Exchanged}
use rust_libp2p_pubsub.Network.Draining.{exchanges_at_lem}
use rust_libp2p_pubsub.Behaviour.Sending.{writes_to}
use rust_libp2p_pubsub.Prelude.{sym, ◌∙◌, subst}
use rust_libp2p_pubsub.Prelude.Outcome.{returned-injective}
use rust_libp2p_pubsub.Network.Settling.{settles}
use rust_libp2p_pubsub.Network.Agreement.{on_routes}
use rust_libp2p_pubsub.Network.Delivery.{delivers}
use rust_libp2p_pubsub.Network.Examples.{value_or}
use rust_libp2p_pubsub.Fixtures.{sizes, one_byte, news, news_topic}

abbrev introduced : Net
introduced = register_inbound_at (initial (λ p. Config.default) (λ p. 1)) 1 10 2 100 101 0

abbrev strangers : Net
strangers = register_outbound_at introduced 2 20 1 100 0

-- One of the nodes counts the connection, and then both.
abbrev half_met : Net
half_met = value_or strangers (establish_at sizes strangers 1 2 10)

abbrev met : Net
met = value_or half_met (establish_at sizes half_met 2 1 20)

abbrev half_subscribed : Net
half_subscribed = subscribe_at sizes met 1 news_topic

abbrev subscribed : Net
subscribed = subscribe_at sizes half_subscribed 2 news_topic

-- A node is polled as often as it has events queued, while the other handles its frames.
abbrev after : Net → PeerId → Net
after net p =
    value_or net (exchanges_at sizes one_byte (length (net.nodes p).swarm_out_events) net p)

abbrev half_heard : Net
half_heard = after subscribed 1

abbrev settled : Net
settled = after half_heard 2

-- What the steps of the run ask for.
record Run : Type 0 where
  fresh_1 : lookup ((initial (λ p. Config.default) (λ p. 1)).nodes 1).connections 10 ≡ none
  fresh_2 : lookup (introduced.nodes 2).connections 20 ≡ none
  mine_1 : belongs (strangers.nodes 1).connections 2 10 ≡ true
  down_1 : is_up (lookup (strangers.nodes 1).connections 10) ≡ false
  alone_1 : strangers.links 1 2 ≡ 0
  can_meet_1 : Sendable sizes one_byte strangers 1 (own_subscriptions (strangers.nodes 1))
  meets_1 : establish_at sizes strangers 1 2 10 ≡ returned half_met
  mine_2 : belongs (half_met.nodes 2).connections 1 20 ≡ true
  down_2 : is_up (lookup (half_met.nodes 2).connections 20) ≡ false
  alone_2 : half_met.links 2 1 ≡ 0
  can_meet_2 : Sendable sizes one_byte half_met 2 (own_subscriptions (half_met.nodes 2))
  meets_2 : establish_at sizes half_met 2 1 20 ≡ returned met
  can_tell_1 : Sendable sizes one_byte met 1 (announcement (SubOpts.subscribe news))
  can_tell_2 : Sendable sizes one_byte half_subscribed 2 (announcement (SubOpts.subscribe news))
  away_1 : writes_to 1 (subscribed.nodes 1).swarm_out_events ≡ false
  clear_1 : (r : PeerId) → subscribed.wires 1 r ≡ []
  hears_1 :
      exchanges_at sizes one_byte (length (subscribed.nodes 1).swarm_out_events) subscribed 1
      ≡ returned half_heard
  away_2 : writes_to 2 (half_heard.nodes 2).swarm_out_events ≡ false
  clear_2 : (r : PeerId) → half_heard.wires 2 r ≡ []
  hears_2 :
      exchanges_at sizes one_byte (length (half_heard.nodes 2).swarm_out_events) half_heard 2
      ≡ returned settled
  drawn :
      SeqNo.next (settled.nodes 1).message_seqno_generator 0
      ≡ returned (linear (record { value = 2 }), some 2)
  can_publish :
      Sendable sizes one_byte settled 1
        (publication sizes one_byte (settled.nodes 1) news (b'h' ∷ []) (some 2))
  clear_12 : (r : PeerId) → settled.wires 1 r ≡ half_heard.wires 1 r
  alone : settled.links 1 1 ≡ 0
  empty_21 : settled.wires 2 1 ≡ []
  quiet_1 : (settled.nodes 1).swarm_out_events ≡ []
  quiet_2 : (settled.nodes 2).swarm_out_events ≡ []

run : Run
unfolding receive_at exchanges_at exchange_at writes_to rust_libp2p_pubsub.Network.poll_at
    subscribe_at establish_at register_outbound_at register_inbound_at
    rust_libp2p_pubsub.Prelude.ℕ_discrete rust_libp2p_pubsub.Behaviour.Outgoing.subscribe
    Router.is_subscribed rust_libp2p_pubsub.Collections.BTreeSet.contains
    rust_libp2p_pubsub.Behaviour.Swarm.on_connection_established
    rust_libp2p_pubsub.Connections.Manager.peer_connections_count HashMap.get
    rust_libp2p_pubsub.Connections.Manager.on_connection_established
    rust_libp2p_pubsub.Connections.Manager.register_inbound HashMap.insert
    rust_libp2p_pubsub.Behaviour.Incoming.convert_messages
    rust_libp2p_pubsub.Behaviour.Incoming.conversions_hold
    rust_libp2p_pubsub.Behaviour.Incoming.routes_hold
    rust_libp2p_pubsub.Behaviour.Incoming.convert_subscriptions
    rust_libp2p_pubsub.Behaviour.Incoming.filter_subscribed
    rust_libp2p_pubsub.Behaviour.Incoming.handle_received_messages
    rust_libp2p_pubsub.Behaviour.Incoming.handle_received_subscriptions
    rust_libp2p_pubsub.Behaviour.Incoming.on_received_rpc_frame
    rust_libp2p_pubsub.Behaviour.Outgoing.announce rust_libp2p_pubsub.Behaviour.emit_frames
    rust_libp2p_pubsub.Behaviour.poll rust_libp2p_pubsub.Behaviour.send_rpc_frame
    rust_libp2p_pubsub.Behaviour.send_to_all rust_libp2p_pubsub.Collections.BTreeSet.insert
    rust_libp2p_pubsub.Collections.SetMap.add_element rust_libp2p_pubsub.Collections.Vec.contains
    rust_libp2p_pubsub.Collections.VecMap.add rust_libp2p_pubsub.Collections.VecMap.add_once
    rust_libp2p_pubsub.Connections.Manager.active_peers
    rust_libp2p_pubsub.Connections.Manager.active_peers_count
    rust_libp2p_pubsub.Connections.Manager.register_outbound rust_libp2p_pubsub.Frame.Rpc.into_rpc
    SubOpts.from_proto SubOpts.into_proto SubOpts.read_subopts
    rust_libp2p_pubsub.Prelude.Order.Bytes-discrete rust_libp2p_pubsub.Prelude.Order.less_bytes
    rust_libp2p_pubsub.Proto.Fragmentation.fragment_rpc_message
    rust_libp2p_pubsub.Proto.Validation.validate_rpc_proto
    rust_libp2p_pubsub.Proto.Validation.validate_subopts_proto Router.add_peer_subscription
    Router.subscribe rust_libp2p_pubsub.Topic.TopicHash-discrete SeqNo.new SeqNo.next new
    rust_libp2p_pubsub.Frame.Message.set_sequence_number rust_libp2p_pubsub.Frame.Message.set_source
    rust_libp2p_pubsub.Frame.Message.new
run = record {
  fresh_1 = refl;
  fresh_2 = refl;
  mine_1 = refl;
  down_1 = refl;
  alone_1 = refl;
  can_meet_1 = refl;
  meets_1 = refl;
  mine_2 = refl;
  down_2 = refl;
  alone_2 = refl;
  can_meet_2 = refl;
  meets_2 = refl;
  can_tell_1 = refl;
  can_tell_2 = refl;
  away_1 = refl;
  clear_1 = λ r. refl;
  hears_1 = refl;
  away_2 = refl;
  clear_2 = λ r. refl;
  hears_2 = refl;
  drawn = refl;
  can_publish = refl;
  clear_12 = λ r. refl;
  alone = refl;
  empty_21 = refl;
  quiet_1 = refl;
  quiet_2 = refl;
}

introduced-Reachable : Reachable sizes one_byte introduced
introduced-Reachable =
    next (start (λ p. Config.default) (λ p. 1)) (registers_inbound 1 10 2 100 101 0 run.fresh_1)
      refl

half_met-Reachable : Reachable sizes one_byte half_met
half_met-Reachable =
    next (next introduced-Reachable (registers_outbound 2 20 1 100 0 run.fresh_2) refl)
      (establishes 1 2 10 run.mine_1 run.down_1 run.alone_1 run.can_meet_1) run.meets_1

met-Reachable : Reachable sizes one_byte met
met-Reachable =
    next half_met-Reachable (establishes 2 1 20 run.mine_2 run.down_2 run.alone_2 run.can_meet_2)
      run.meets_2

subscribed-Reachable : Reachable sizes one_byte subscribed
subscribed-Reachable =
    next (next met-Reachable (subscribes 1 news_topic run.can_tell_1) refl)
      (subscribes 2 news_topic run.can_tell_2) refl

settles_example :
    (net' : Net) × (exchanges_at sizes one_byte
        (length (subscribed.nodes 1).swarm_out_events)
        subscribed
        1
      ≡ returned net')
    × Reachable sizes one_byte net'
    × (on_routes (net'.nodes 2) 1 news
        ≡ (ltb 0 (subscribed.links 1 2) && Router.is_subscribed (subscribed.nodes 1).router news))
settles_example =
    settles sizes one_byte subscribed 1 2 news subscribed-Reachable refl run.away_1 run.clear_1

-- What both have done when the first has been heard out.
half_heard-Exchanged :
    Exchanged sizes one_byte subscribed half_heard 1 (subscribed.nodes 1).swarm_out_events []
half_heard-Exchanged =
    let (net', done, h) =
      exchanges_at_lem sizes one_byte (subscribed.nodes 1).swarm_out_events subscribed 1
        subscribed-Reachable refl run.away_1 run.clear_1 in
    let there : net' ≡ half_heard = returned-injective (sym done ∙ run.hears_1) in
    subst
      (λ (n : Net).
        Exchanged sizes one_byte subscribed n 1 (subscribed.nodes 1).swarm_out_events [])
      there h

settled-Reachable : Reachable sizes one_byte settled
settled-Reachable =
    let (net', done, h) =
      exchanges_at_lem sizes one_byte (half_heard.nodes 2).swarm_out_events half_heard 2
        half_heard-Exchanged.reachable refl run.away_2 run.clear_2 in
    let there : net' ≡ settled = returned-injective (sym done ∙ run.hears_2) in
    subst (λ (n : Net). Reachable sizes one_byte n) there h.reachable

delivers_example :
    (net₁ : Net) × (publish_at sizes one_byte settled 1 news_topic (b'h' ∷ []) 0 ≡ returned net₁)
    × (net₂ : Net) × (exchanges_at sizes one_byte (length (net₁.nodes 1).swarm_out_events) net₁ 1
        ≡ returned net₂)
    × (told (net₂.nodes 2).swarm_out_events ≡ (
        if Router.is_subscribed (settled.nodes 1).router news
          && (ltb 0 (settled.links 2 1) && Router.is_subscribed (settled.nodes 2).router news)
        then message 1 news
            (published one_byte news (b'h' ∷ []) (settled.nodes 1).message_author (some 2))
          ∷ []
        else []))
delivers_example =
    delivers sizes one_byte settled 1 2 news_topic (b'h' ∷ []) 0 (linear (record { value = 2 }))
      (some 2) settled-Reachable (omega arith) run.alone refl (omega arith) run.drawn
      run.can_publish (λ r. run.clear_12 r ∙ half_heard-Exchanged.clear r) run.empty_21 run.quiet_1
      run.quiet_2
