-- ===== src/Network/Convergence.antt =====
-- What each node of floodsub/src/behaviour.rs knows of the others' subscriptions, in every network that
-- can be reached.
use rust_libp2p_pubsub.Prelude.{
  ℕ, ◌≡◌, refl, sym, ◌∙◌, subst, false, ◌&&◌, [], is_empty, arith, ltb,
}
use rust_libp2p_pubsub.Prelude.Outcome.{Outcome, returned}
use rust_libp2p_pubsub.Libp2p.{PeerId, PeerIdBytes}
use rust_libp2p_pubsub.Config.{Config}
use rust_libp2p_pubsub.Topic.{TopicHash}
use rust_libp2p_pubsub.Collections.HashMap
use rust_libp2p_pubsub.Collections.BTreeSet
use rust_libp2p_pubsub.Connections.Manager.Counts
use rust_libp2p_pubsub.Router
use rust_libp2p_pubsub.Router.Invariant.{empty-IsCoherent}
use rust_libp2p_pubsub.Proto.Fragmentation.{Sizes}
use rust_libp2p_pubsub.Behaviour.{Behaviour, new}
use rust_libp2p_pubsub.Behaviour.Sending.{sent_to}
use rust_libp2p_pubsub.Behaviour.Publishing.{publishes_to_routes}
use rust_libp2p_pubsub.Behaviour.Connecting.{connects}
use rust_libp2p_pubsub.Connections.Manager.Counts.{bump}
use rust_libp2p_pubsub.Network.{
  Net, set_node, initial, subscribe_at, unsubscribe_at, publish_at, register_inbound_at,
  register_outbound_at, establish_at, poll_at,
}
use rust_libp2p_pubsub.Network.Reachable.{
  Step, Reachable, start, next, subscribes, unsubscribes, publishes, registers_inbound,
  registers_outbound, establishes, disconnects, polls, receives,
}
use rust_libp2p_pubsub.Network.Agreement.{
  Agrees, Honest, replaced, replaced-Agrees, word, truth, update-same, on_routes,
}
use rust_libp2p_pubsub.Network.Honesty.{
  subscribe-Honest, unsubscribe-Honest, publish-Honest, establish-Honest, quiet-Honest,
}
use rust_libp2p_pubsub.Network.Disconnection.{disconnect-Agrees}
use rust_libp2p_pubsub.Network.Polls.{poll-Agrees}
use rust_libp2p_pubsub.Network.Receptions.{receive-Agrees}

initial-Agrees :
    (config : PeerId → Config) (unix_nanos : PeerId → ℕ) → Agrees (initial config unix_nanos)
unfolding new
initial-Agrees config unix_nanos = record {
  coherent = λ p. empty-IsCoherent;
  counted = λ p. Counts.start;
  says = λ p q t e. unfold sent_to HashMap.get Router.propagation_routes BTreeSet.contains in refl;
}

-- An operation of one node, which puts nothing on the wires.
set_node-Agrees :
    (net : Net) (p : PeerId) (b : Behaviour)
    → Agrees net
    → Honest (net.nodes p) b (net.links p) (net.links p)
    → Agrees (set_node net p b)
set_node-Agrees net p b h k =
    subst Agrees
      (λ i. record (set_node net p b) {
        links = λ x. update-same (λ (n : PeerId → ℕ). n) p x (net.links p) net.links refl i;
      })
      (replaced-Agrees net p b (net.links p) h k)

module _ (s : Sizes) (ids : PeerIdBytes) where
  -- No step panics.
  pub Step-Agrees :
      {net : Net} {o : Outcome Net}
      → Agrees net
      → Step s ids net o
      → (net' : Net) × (o ≡ returned net') × Agrees net'
  unfolding subscribe_at unsubscribe_at publish_at register_inbound_at register_outbound_at
      establish_at
  Step-Agrees {net} h (subscribes p topic sendable) = (
    subscribe_at s net p topic,
    refl,
    set_node-Agrees net p _ h (
        subscribe-Honest s (net.nodes p) topic (net.links p) (h.coherent p) (h.counted p) sendable),
  )
  Step-Agrees {net} h (unsubscribes p topic sendable) = (
    unsubscribe_at s net p topic,
    refl,
    set_node-Agrees net p _ h (
        unsubscribe-Honest s (net.nodes p) topic (net.links p) (h.coherent p) (h.counted p)
          sendable),
  )
  Step-Agrees {net} h (publishes p topic payload drawn generator seqno drew) =
      let (b, done, sent, moved, quiet, routed, linked) =
        publishes_to_routes s ids (net.nodes p) topic payload drawn generator seqno 0 (h.coherent p)
          drew in
      (
        set_node net p b,
        rw done refl,
        set_node-Agrees net p b h (
            publish-Honest s ids (net.nodes p) b topic payload drawn generator seqno _ (net.links p)
              (h.coherent p) (h.counted p) drew done),
      )
  Step-Agrees {net} h (registers_inbound p c q l a now fresh) = (
    register_inbound_at net p c q l a now,
    refl,
    set_node-Agrees net p _ h (
        quiet-Honest (net.nodes p) _ (net.links p) (h.coherent p)
          (Counts.inbound c q l a (h.counted p) fresh) refl (λ q. refl)),
  )
  Step-Agrees {net} h (registers_outbound p c q a now fresh) = (
    register_outbound_at net p c q a now,
    refl,
    set_node-Agrees net p _ h (
        quiet-Honest (net.nodes p) _ (net.links p) (h.coherent p)
          (Counts.outbound c q a (h.counted p) fresh) refl (λ q. refl)),
  )
  Step-Agrees {net} h (establishes p q c mine down alone sendable) =
      let (b, done, linked, sent, routed) =
        connects s (net.nodes p) q c (net.links p) 0 (h.counted p) mine down in
      (
        replaced net p b (bump q (net.links p)),
        rw done refl,
        replaced-Agrees net p b (bump q (net.links p)) h (
            establish-Honest s (net.nodes p) b q c (net.links p) (h.coherent p) (h.counted p) mine
              down alone sendable done),
      )
  Step-Agrees {net} h (polls p free) = (poll_at net p, refl, poll-Agrees net p h)
  Step-Agrees {net} h (receives p q) = receive-Agrees s ids net p q h
  Step-Agrees {net} h (disconnects p q c d off up_p up_q l_pq l_qp e_p e_q) =
      disconnect-Agrees net p q c d h off up_p up_q l_pq l_qp e_p e_q

  pub Reachable-Agrees : {net : Net} → Reachable s ids net → Agrees net
  Reachable-Agrees (start config unix_nanos) = initial-Agrees config unix_nanos
  Reachable-Agrees {net} (next r step e) =
      let (net', done, h) = Step-Agrees (Reachable-Agrees r) step in
      let there : net' ≡ net = ground (arith, done, e) in subst Agrees there h

  -- A step that may happen returns, and what it returns can be reached.
  pub Reachable-Step :
      {net : Net} {o : Outcome Net}
      → Reachable s ids net
      → Step s ids net o
      → (net' : Net) × (o ≡ returned net') × Reachable s ids net'
  Reachable-Step r step =
      let (net', done, h) = Step-Agrees (Reachable-Agrees r) step in (net', done, next r step done)

  -- In every network that can be reached while at most one frame at a time is under way from a
  -- node to another, what a node holds of another's subscription to a topic that is not empty,
  -- once it has heeded all that the other has put on the wire or queued for it, is whether the
  -- other counts a connection to it and is subscribed.
  pub Reachable-word :
      {net : Net}
      → Reachable s ids net
      → (p q : PeerId) (t : TopicHash) → is_empty t.hash ≡ false
      → word net p q t ≡ truth net p q t
  Reachable-word r p q t e = (Reachable-Agrees r).says p q t e

  -- In every network that can be reached, if nothing stands on the wire from one node to another
  -- and the first has no event queued, then it is on the second's routes of a topic that is not
  -- empty exactly if it counts a connection to the second and is subscribed to the topic.
  pub Reachable-routes :
      {net : Net}
      → Reachable s ids net
      → (p q : PeerId) (t : TopicHash) → is_empty t.hash ≡ false
      → net.wires p q ≡ []
      → (net.nodes p).swarm_out_events ≡ []
      → on_routes (net.nodes q) p t
        ≡ (ltb 0 (net.links p q) && Router.is_subscribed (net.nodes p).router t)
  Reachable-routes {net} r p q t e w quiet =
      let arrived : word net p q t ≡ on_routes (net.nodes q) p t =
        rw (w, quiet) (unfold sent_to in refl) in
      sym arrived ∙ Reachable-word r p q t e
