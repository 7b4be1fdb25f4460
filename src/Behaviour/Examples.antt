-- ===== src/Behaviour/Examples.antt =====
-- Runs of floodsub/src/behaviour.rs: a node with the peers 1, 2 and 3, of which 2 and 3 are
-- subscribed to a topic, as the node is, and 1 has the only connection.
use rust_libp2p_pubsub.Prelude.{
  ℕ, ◌+◌, ◌-◌, ◌≡◌, refl, Bool, true, false, not, ◌&&◌, ◌||◌, Option, none, some, List, [], ◌∷◌,
  ◌++◌, arith, ltb, ◌==◌, is_empty, if◌then◌else◌,
}
use rust_libp2p_pubsub.Prelude.Order.{ℕ-ord, same}
use rust_libp2p_pubsub.Prelude.Outcome.{returned}
use rust_libp2p_pubsub.Topic.{hash_of, TopicHash-ord}
use rust_libp2p_pubsub.Collections.BTreeSet
use rust_libp2p_pubsub.Connections.Manager.Counts.{Reach, lower}
use rust_libp2p_pubsub.Router
use rust_libp2p_pubsub.Router.{Router, propagation_routes}
use rust_libp2p_pubsub.Router.Invariant.{IsCoherent}
use rust_libp2p_pubsub.SeqNo
use rust_libp2p_pubsub.SeqNo.{linear}
use rust_libp2p_pubsub.Proto.{RpcProto, SubOptsProto}
use rust_libp2p_pubsub.Proto.Fragmentation.Contents.{contents, join, nothing}
use rust_libp2p_pubsub.Frame.Message
use rust_libp2p_pubsub.Frame.Message.{Message}
use rust_libp2p_pubsub.Frame.SubOpts
use rust_libp2p_pubsub.Behaviour.{Behaviour, ok, send_rpc_frame}
use rust_libp2p_pubsub.Behaviour.Incoming.{
  filter_subscribed, handle_received_messages, on_received_rpc_frame,
}
use rust_libp2p_pubsub.Behaviour.Outgoing.{publish, subscribe, unsubscribe}
use rust_libp2p_pubsub.Behaviour.Swarm.{on_connection_established, on_connection_closed}
use rust_libp2p_pubsub.Frame.Message.Fields.{published}
use rust_libp2p_pubsub.Frame.Rpc.{into_rpc, new_with_messages}
use rust_libp2p_pubsub.Behaviour.{message}
use rust_libp2p_pubsub.Behaviour.Subscribing.{announcement}
use rust_libp2p_pubsub.Behaviour.Network.{announcement-routes, published_message-told}
use rust_libp2p_pubsub.Behaviour.Sending.{
  sent_to, told, can_send, delivery, SameBut, send_rpc_frame_lem,
}
use rust_libp2p_pubsub.Behaviour.Receiving.{forwarded, handle_received_messages_lem}
use rust_libp2p_pubsub.Behaviour.Grouping.{wanted, notices}
use rust_libp2p_pubsub.Behaviour.Frames.{accepted, on_received_rpc_frame_lem}
use rust_libp2p_pubsub.Behaviour.Publishing.{envelope, report, publish_lem}
use rust_libp2p_pubsub.Behaviour.Subscribing.{heard, subscribe_lem, unsubscribe_lem}
use rust_libp2p_pubsub.Behaviour.Connecting.{
  greeting, on_connection_established_lem, on_connection_closed_lem,
}
use rust_libp2p_pubsub.Handler.Types.{frame_received}
use rust_libp2p_pubsub.Config
use rust_libp2p_pubsub.Collections.HashMap
use rust_libp2p_pubsub.Connections.Manager
use rust_libp2p_pubsub.Behaviour.{new}
use rust_libp2p_pubsub.Behaviour.Swarm.{
  on_connection_handler_event, handle_established_inbound_connection,
}
use rust_libp2p_pubsub.Behaviour.Steps
use rust_libp2p_pubsub.Behaviour.Safety.{Reach-returns}
use rust_libp2p_pubsub.Fixtures.{sizes, one_byte, news, news_topic, note, note_frame}
use rust_libp2p_pubsub.Behaviour.Node.{
  router, router-IsCoherent, registered, connected, counts, registered-Reach, registered-belongs,
  registered-down, connected-Reach, connected-counted, node, b,
}

send_rpc_frame_lem_example :
    (sent_to 1 (send_rpc_frame sizes b 1 note_frame).0.swarm_out_events
      ≡ join (sent_to 1 []) (delivery sizes 65537 1 1 note_frame))
    × (told (send_rpc_frame sizes b 1 note_frame).0.swarm_out_events ≡ told [])
    × SameBut b (send_rpc_frame sizes b 1 note_frame).0
send_rpc_frame_lem_example = send_rpc_frame_lem sizes b 1 1 note_frame

abbrev letter : Message
letter = Message.from_proto note

handle_received_messages_lem_example :
    let b' = handle_received_messages sizes b 2 (letter ∷ []) in
    (sent_to 3 b'.swarm_out_events
      ≡ join (sent_to 3 []) (forwarded sizes 65537 (wanted router 2 3 (letter ∷ []))))
    × (told b'.swarm_out_events ≡ told [] ++ notices 2 (filter_subscribed router (letter ∷ [])))
    × SameBut b b'
handle_received_messages_lem_example =
    handle_received_messages_lem sizes b 2 (letter ∷ []) 3 router-IsCoherent

abbrev joining : SubOptsProto
joining = record { subscribe = some true; topic_id = some (b'n' ∷ []) }

abbrev incoming : RpcProto
incoming = record { subscriptions = joining ∷ []; publish = note ∷ []; control = none }

on_received_rpc_frame_lem_example :
    let received = accepted one_byte.from_bytes (note ∷ []) in
    (b' : Behaviour) × (on_received_rpc_frame sizes one_byte b 1 incoming ≡ returned b')
    × (told b'.swarm_out_events ≡ told [] ++ notices 1 (filter_subscribed router received))
    × (sent_to 1 b'.swarm_out_events
        ≡ join (sent_to 1 []) (forwarded sizes 65537 (wanted router 1 1 received)))
    × (BTreeSet.contains 1 (propagation_routes b'.router news) ≡ true)
    × IsCoherent b'.router
unfolding rust_libp2p_pubsub.Prelude.ℕ_discrete rust_libp2p_pubsub.Topic.TopicHash-discrete
on_received_rpc_frame_lem_example =
    on_received_rpc_frame_lem sizes one_byte b 1 incoming 1 news router-IsCoherent

draws :
    SeqNo.next (linear (record { value = 41 })) 0
    ≡ returned (linear (record { value = 42 }), some 42)
unfolding SeqNo.next SeqNo.next_linear
draws = refl

publish_lem_example :
    let subscribed = Router.is_subscribed router news in
    let routes = propagation_routes router news in
    let frame = envelope one_byte b news (b'h' ∷ []) (some 42) in
    (b' : Behaviour) × (publish sizes one_byte b news_topic (b'h' ∷ []) 0
      ≡ returned (b', report subscribed (is_empty routes)))
    × (sent_to 2 b'.swarm_out_events
        ≡ join (sent_to 2 []) (
            if subscribed && (BTreeSet.contains 2 routes && can_send sizes 65537 frame)
            then contents frame
            else nothing))
    × (b'.message_seqno_generator ≡ (
        if subscribed && not (is_empty routes)
        then linear (record { value = 42 })
        else linear (record { value = 41 })))
    × (told b'.swarm_out_events ≡ told [])
    × (b'.router ≡ router)
    × (b'.connections ≡ connected)
publish_lem_example =
    publish_lem sizes one_byte b news_topic (b'h' ∷ []) 0 (linear (record { value = 42 })) (some 42)
      2 router-IsCoherent draws

subscribe_lem_example :
    let fresh = not (Router.is_subscribed router news) in
    let (b', result) = subscribe sizes b news_topic in
    (result ≡ ok fresh)
    × (Router.is_subscribed b'.router news ≡ (same news news || Router.is_subscribed router news))
    × (sent_to 1 b'.swarm_out_events
        ≡ join (sent_to 1 []) (heard sizes b (fresh && ltb 0 (counts 1)) (SubOpts.subscribe news)))
    × (told b'.swarm_out_events ≡ told [])
    × (b'.connections ≡ connected)
subscribe_lem_example = subscribe_lem sizes b news_topic counts news 1 connected-Reach

unsubscribe_lem_example :
    let ours = Router.is_subscribed router news in
    let (b', result) = unsubscribe sizes b news_topic in
    (result ≡ ok ours)
    × (Router.is_subscribed b'.router news
        ≡ (not (same news news) && Router.is_subscribed router news))
    × (sent_to 1 b'.swarm_out_events
        ≡ join (sent_to 1 []) (heard sizes b (ours && ltb 0 (counts 1)) (SubOpts.unsubscribe news)))
    × (told b'.swarm_out_events ≡ told [])
    × (b'.connections ≡ connected)
unsubscribe_lem_example = unsubscribe_lem sizes b news_topic counts news 1 connected-Reach

on_connection_established_lem_example :
    (b' : Behaviour) × (on_connection_established sizes (node registered) 1 10 0 ≡ returned b')
    × Reach b'.connections counts
    × (sent_to 1 b'.swarm_out_events
        ≡ join (sent_to 1 []) (delivery sizes 65537 1 1 (greeting (node registered))))
    × (b'.router ≡ router)
on_connection_established_lem_example =
    on_connection_established_lem sizes (node registered) 1 10 (λ p. 0) 1 registered-Reach
      registered-belongs registered-down

on_connection_closed_lem_example :
    (b' : Behaviour) × (on_connection_closed b 1 10 (counts 1 - 1) ≡ returned b')
    × Reach b'.connections (lower 1 counts)
    × (BTreeSet.contains 1 (propagation_routes b'.router news) ≡ (
        not (same {K = ℕ} 1 1 && (counts 1 - 1 == 0))
        && BTreeSet.contains 1 (propagation_routes router news)))
    × IsCoherent b'.router
    × (b'.swarm_out_events ≡ [])
on_connection_closed_lem_example =
    on_connection_closed_lem b 1 10 counts 1 news connected-Reach router-IsCoherent
      connected-counted

announcement-routes_example :
    (b' : Behaviour) × (on_received_rpc_frame sizes one_byte b 1
        (announcement (SubOpts.subscribe news))
      ≡ returned b')
    × (BTreeSet.contains 1 (propagation_routes b'.router news) ≡ true)
    × (told b'.swarm_out_events ≡ told [])
unfolding rust_libp2p_pubsub.Prelude.ℕ_discrete rust_libp2p_pubsub.Topic.TopicHash-discrete
announcement-routes_example =
    announcement-routes sizes one_byte b 1 (SubOpts.subscribe news) 1 news router-IsCoherent refl

abbrev post : Message
post = published one_byte news (b'h' ∷ []) (some 9) (some 42)

published_message-told_example :
    let subscribed = Router.is_subscribed router news in
    (b' : Behaviour) × (on_received_rpc_frame sizes one_byte b 2
        (into_rpc (new_with_messages (post ∷ [])))
      ≡ returned b')
    × (told b'.swarm_out_events ≡ told [] ++ (if subscribed then message 2 news post ∷ [] else []))
    × (sent_to 3 b'.swarm_out_events
        ≡ join (sent_to 3 []) (
            forwarded sizes 65537 (
              if subscribed
                && (BTreeSet.contains 3 (propagation_routes router news) && not (same {K = ℕ} 3 2))
              then post ∷ []
              else [])))
    × (Message.source one_byte post ≡ returned (some 9))
    × (Message.sequence_number post ≡ returned (some 42))
    × (Message.payload post ≡ returned (b'h' ∷ []))
published_message-told_example =
    published_message-told sizes one_byte b 2 3 news (b'h' ∷ []) (some 9) (some 42)
      router-IsCoherent refl (omega arith)

-- A node that is subscribed, with a connection.
abbrev listener : Behaviour
listener =
    (handle_established_inbound_connection {S = ℕ}
      (subscribe sizes (new Config.default 1) news_topic).0 10 1 100 101 0).0

listener-Reach : Steps.Reach sizes one_byte listener (λ p. 0)
unfolding subscribe new HashMap.get Manager.active_peers_count
    rust_libp2p_pubsub.Behaviour.Outgoing.announce Router.is_subscribed BTreeSet.contains
listener-Reach =
    Steps.next (Steps.next (Steps.start Config.default 1) (Steps.subscribes news_topic) refl)
      (Steps.registers_inbound 10 1 100 101 0 refl) refl

Reach-returns_example :
    (b' : Behaviour) × (on_connection_handler_event sizes one_byte listener 1
        (frame_received note_frame)
      ≡ returned b')
    × Steps.Reach sizes one_byte b' (λ p. 0)
    × IsCoherent b'.router
    × (Manager.peer_connections_count b'.connections 1 ≡ 0)
Reach-returns_example =
    Reach-returns sizes one_byte 1 listener-Reach (Steps.hears 1 (frame_received note_frame))
