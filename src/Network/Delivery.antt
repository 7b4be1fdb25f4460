-- ===== src/Network/Delivery.antt =====
-- What a node of floodsub/src/behaviour.rs publishes, until another node has handled it.
use rust_libp2p_pubsub.Prelude.{
  ℕ, Option, ◌≡◌, ◌≢◌, refl, sym, ◌∙◌, Bool, true, false, ◌&&◌, [], ◌∷◌, length, is_empty,
  if◌then◌else◌, ltb, arith,
}
use rust_libp2p_pubsub.Prelude.Order.{ℕ-ord, Bytes}
use rust_libp2p_pubsub.Prelude.Outcome.{returned}
use rust_libp2p_pubsub.Libp2p.{PeerId, PeerIdBytes}
use rust_libp2p_pubsub.Topic.{TopicHash, Topic, hash_of}
use rust_libp2p_pubsub.Collections.BTreeSet
use rust_libp2p_pubsub.Router
use rust_libp2p_pubsub.Router.{propagation_routes}
use rust_libp2p_pubsub.SeqNo
use rust_libp2p_pubsub.SeqNo.{MessageSeqNumberGenerator}
use rust_libp2p_pubsub.Proto.Fragmentation.{Sizes}
use rust_libp2p_pubsub.Proto.Fragmentation.Contents.{contents, nothing}
use rust_libp2p_pubsub.Frame.Message
use rust_libp2p_pubsub.Frame.Message.{Message}
use rust_libp2p_pubsub.Frame.Message.Fields.{FitsU64, published, published-reads}
use rust_libp2p_pubsub.Frame.Rpc.{into_rpc}
use rust_libp2p_pubsub.Behaviour.{Behaviour, message}
use rust_libp2p_pubsub.Behaviour.Sending.{sent_to, told, can_send}
use rust_libp2p_pubsub.Behaviour.Publishing.{publication, publishes_to_routes}
use rust_libp2p_pubsub.Behaviour.Network.{converted, from_proto-published, told_one}
use rust_libp2p_pubsub.Network.{Net, set_node, publish_at}
use rust_libp2p_pubsub.Network.Agreement.{on_routes, update-at, update-off}
use rust_libp2p_pubsub.Network.Reachable.{Reachable, next, publishes}
use rust_libp2p_pubsub.Network.Convergence.{Reachable-Agrees, Reachable-routes}
use rust_libp2p_pubsub.Network.Hearing.{heard, heard-nil}
use rust_libp2p_pubsub.Network.Exchange.{exchanges_at}
use rust_libp2p_pubsub.Network.Draining.{exchanges_at_lem}
use rust_libp2p_pubsub.Behaviour.Addressing.{writes_to-publish}
use rust_libp2p_pubsub.Behaviour.Sending.{writes_to}

-- A published message, as the application is told of it.
heard-published :
    (ids : PeerIdBytes) (b : Behaviour) (src : PeerId) (t : TopicHash) (payload : Bytes)
    (author : Option PeerId) (seqno : Option ℕ)
    → FitsU64 seqno
    → is_empty t.hash ≡ false
    → let m = published ids t payload author seqno in
      heard ids b src (m.proto ∷ [])
      ≡ (if Router.is_subscribed b.router t then message src t m ∷ [] else [])
unfolding Message.set_sequence_number Message.set_source Message.new
heard-published ids b src t payload author seqno fits e =
    let m = published ids t payload author seqno in
    let (source, number, bytes, on_topic, valid) =
      published-reads ids t payload author seqno fits e in
    rw (converted ids m (ground (arith, valid)) (from_proto-published ids t payload author seqno))
      (told_one b.router src m)

module _ (s : Sizes) (ids : PeerIdBytes) where
  -- What a publication that may be sent makes its receiver tell.
  heard-publication :
      (a b : Behaviour) (src : PeerId) (t : TopicHash) (payload : Bytes) (seqno : Option ℕ)
      (sends : Bool)
      → FitsU64 seqno
      → is_empty t.hash ≡ false
      → heard ids b src
          (if sends then contents (publication s ids a t payload seqno) else nothing).publish
        ≡ (if sends && Router.is_subscribed b.router t
            then message src t (published ids t payload a.message_author seqno) ∷ []
            else [])
  unfolding into_rpc
  heard-publication a b src t payload seqno true fits e =
      heard-published ids b src t payload a.message_author seqno fits e
  heard-publication a b src t payload seqno false fits e = heard-nil ids b src

  -- In every network that can be reached while at most one frame at a time is under way from a
  -- node to another, two different nodes have nothing queued, and nothing stands on the wires from
  -- the first and on that from the second to it. The first counts no connection to itself, and
  -- publishes to a topic that is not empty, with a number of 64 bits if any and a frame that can
  -- be fragmented. No step panics when it is then polled as often as it has events queued, and
  -- each frame is handled before the next poll. Afterwards the second's application is told that
  -- very message, and nothing else, if both are subscribed to the topic and the second counts a
  -- connection to the first, and else nothing.
  pub delivers :
      (net : Net) (p q : PeerId) (topic : Topic) (payload : Bytes) (drawn : ℕ)
      (generator : MessageSeqNumberGenerator) (seqno : Option ℕ)
      → Reachable s ids net
      → p ≢ q
      → net.links p p ≡ 0
      → is_empty (hash_of topic).hash ≡ false
      → FitsU64 seqno
      → SeqNo.next (net.nodes p).message_seqno_generator drawn ≡ returned (generator, seqno)
      → can_send s
          (net.nodes p).config.max_frame_size
          (publication s ids (net.nodes p) (hash_of topic) payload seqno)
        ≡ true
      → ((r : PeerId) → net.wires p r ≡ [])
      → net.wires q p ≡ []
      → (net.nodes p).swarm_out_events ≡ []
      → (net.nodes q).swarm_out_events ≡ []
      → let t = hash_of topic in
        (net₁ : Net) × (publish_at s ids net p topic payload drawn ≡ returned net₁)
        × (net₂ : Net) × (exchanges_at s ids (length (net₁.nodes p).swarm_out_events) net₁ p
            ≡ returned net₂)
        × (told (net₂.nodes q).swarm_out_events ≡ (
            if Router.is_subscribed (net.nodes p).router t
              && (ltb 0 (net.links q p) && Router.is_subscribed (net.nodes q).router t)
            then message p t (published ids t payload (net.nodes p).message_author seqno) ∷ []
            else []))
  unfolding publish_at
  delivers net p q topic payload drawn generator seqno r d alone e fits drew can clear w_qp quiet_p
        quiet_q =
      let t = hash_of topic in
      let (b, done, sent, moved, quiet, routed, linked) =
        publishes_to_routes s ids (net.nodes p) topic payload drawn generator seqno q
          ((Reachable-Agrees s ids r).coherent p) drew in
      let net₁ = set_node net p b in
      let first : publish_at s ids net p topic payload drawn ≡ returned net₁ = rw done refl in
      let r₁ = next r (publishes p topic payload drawn generator seqno drew) first in
      let on = Reachable-routes s ids r q p t e w_qp quiet_q in
      let off : on_routes (net.nodes p) p t ≡ false =
        Reachable-routes s ids r p p t e (clear p) quiet_p ∙ ground (arith, alone) in
      let away : writes_to p b.swarm_out_events ≡ false =
        writes_to-publish s ids (net.nodes p) b topic payload drawn generator seqno _ p
          (BTreeSet.contains-vec p (propagation_routes (net.nodes p).router t) ∙ off)
          (rw quiet_p (unfold writes_to in refl)) drew done in
      let (net₂, rest, h) =
        exchanges_at_lem s ids (net₁.nodes p).swarm_out_events net₁ p r₁ refl
          (rw (update-at p b net.nodes) away) clear in
      let sends : Bool =
        Router.is_subscribed (net.nodes p).router t
        && (on_routes (net.nodes p) q t
            && can_send s (net.nodes p).config.max_frame_size
                (publication s ids (net.nodes p) t payload seqno)) in
      let arrived : told (net₂.nodes q).swarm_out_events
          ≡ heard ids (net.nodes q) p
              (if sends
                then contents (publication s ids (net.nodes p) t payload seqno)
                else nothing).publish =
        rw
          (
            h.tells q (λ x. d (sym x)),
            update-off p b net.nodes q (λ x. d (sym x)),
            update-at p b net.nodes,
            sent,
            quiet_p,
            quiet_q,
          )
          (unfold told sent_to in refl) in
      (
        net₁,
        first,
        net₂,
        rest,
        arrived
            ∙ heard-publication (net.nodes p) (net.nodes q) p t payload seqno sends fits e
            ∙ ground (arith, can, on),
      )
