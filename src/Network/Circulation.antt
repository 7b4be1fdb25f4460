-- ===== src/Network/Circulation.antt =====
-- A message that goes round between three nodes of floodsub/src/behaviour.rs.
use rust_libp2p_pubsub.Prelude.{
  ℕ, ◌≡◌, ◌≢◌, sym, ap, ◌∙◌, true, false, Option, List, [], ◌∷◌, is_empty, arith,
}
use rust_libp2p_pubsub.Prelude.Order.{Bytes, ℕ-ord}
use rust_libp2p_pubsub.Prelude.Outcome.{Outcome, returned, ◌>>=◌}
use rust_libp2p_pubsub.Libp2p.{PeerId, PeerIdBytes}
use rust_libp2p_pubsub.Topic.{TopicHash}
use rust_libp2p_pubsub.Proto.{RpcProto}
use rust_libp2p_pubsub.Proto.Validation.{is_ok, validate_message_proto}
use rust_libp2p_pubsub.Proto.Fragmentation.{Sizes}
use rust_libp2p_pubsub.Frame.Message
use rust_libp2p_pubsub.Frame.Message.{Message}
use rust_libp2p_pubsub.Frame.Message.Fields.{FitsU64, published, published-reads}
use rust_libp2p_pubsub.Frame.Rpc.{new_with_messages, into_rpc}
use rust_libp2p_pubsub.Handler.Types.{send_frame}
use rust_libp2p_pubsub.Behaviour.{Behaviour, message, generate_event, notify_handler}
use rust_libp2p_pubsub.Behaviour.Incoming.{on_received_rpc_frame}
use rust_libp2p_pubsub.Behaviour.Sending.{told}
use rust_libp2p_pubsub.Behaviour.Network.{from_proto-published}
use rust_libp2p_pubsub.Network.{Net}
use rust_libp2p_pubsub.Network.Agreement.{rewired-off_source, rewired-at, rewired, rewired_lem}
use rust_libp2p_pubsub.Network.Hops.{PassesOn, with_events, handled, hop, hop_lem}

-- Three wires that hold again what they held.
back_again :
    (wires : PeerId → PeerId → List RpcProto) (p q r : PeerId) (frames : List RpcProto)
    → wires p q ≡ frames
    → wires q r ≡ []
    → wires r p ≡ []
    → (x y : PeerId)
    → rewired p q frames
        (rewired r p []
          (rewired r p frames (rewired q r [] (rewired q r frames (rewired p q [] wires)))))
        x
        y
      ≡ wires x y
back_again wires p q r frames a b c x y =
    let w₁ = rewired p q [] wires in
    let w₂ = rewired q r frames w₁ in
    let w₃ = rewired q r [] w₂ in
    let w₄ = rewired r p frames w₃ in
    let w₅ = rewired r p [] w₄ in
    rw
      (
        rewired_lem p q frames w₅ x y,
        rewired_lem r p [] w₄ x y,
        rewired_lem r p frames w₃ x y,
        rewired_lem q r [] w₂ x y,
        rewired_lem q r frames w₁ x y,
        rewired_lem p q [] wires x y,
      )
      (ground (arith, a, b, c))

module _ (s : Sizes) (ids : PeerIdBytes) where
  -- Once round the triangle.
  unfoldable pub round : Net → PeerId → PeerId → PeerId → Outcome Net
  unfolding hop
  round net p q r =
      hop s ids net p q >>= λ net'. hop s ids net' q r >>= λ net''. hop s ids net'' r p

  -- Three different nodes are subscribed to the topic, which is not empty, of a message as
  -- `publish` builds it, with a number of 64 bits if any. Each passes it on from the one before to
  -- the one after, and to no other, in one frame. When the message stands alone on the wire from
  -- the first to the second, nothing on those from the second to the third and from the third to
  -- the first, and none of the three has an event queued, then after three hops the whole network
  -- is in the very state in which it was, and so it goes on for ever. When the second handles the
  -- message, its application is told it.
  pub round-same :
      (net : Net) (p q r : PeerId) (t : TopicHash) (payload : Bytes) (author : Option PeerId)
      (seqno : Option ℕ)
      → let m = published ids t payload author seqno in
        p ≢ q
        → q ≢ r
        → r ≢ p
        → is_empty t.hash ≡ false
        → FitsU64 seqno
        → PassesOn s ids (net.nodes q) p r m
        → PassesOn s ids (net.nodes r) q p m
        → PassesOn s ids (net.nodes p) r q m
        → net.wires p q ≡ into_rpc (new_with_messages (m ∷ [])) ∷ []
        → net.wires q r ≡ []
        → net.wires r p ≡ []
        → (round net p q r ≡ returned net)
          × (b : Behaviour) × (on_received_rpc_frame s ids
                (net.nodes q)
                p
                (into_rpc (new_with_messages (m ∷ [])))
              ≡ returned b)
          × (told b.swarm_out_events ≡ message p t m ∷ [])
  unfolding round
  round-same net p q r t payload author seqno pq qr rp e fits at_q at_r at_p w_pq w_qr w_rp =
      let m = published ids t payload author seqno in
      let frame = into_rpc (new_with_messages (m ∷ [])) in
      let (source, number, bytes, on_topic, is_valid) =
        published-reads ids t payload author seqno fits e in
      let valid : is_ok (validate_message_proto ids.from_bytes m.proto) ≡ true =
        ground (arith, is_valid) in
      let same = from_proto-published ids t payload author seqno in
      let qp : q ≢ p = λ k. pq (sym k) in
      let rq : r ≢ q = λ k. qr (sym k) in
      let pr : p ≢ r = λ k. rp (sym k) in
      let w₁ = rewired p q [] net.wires in
      let w₂ = rewired q r (frame ∷ []) w₁ in
      let w₃ = rewired q r [] w₂ in
      let net₂ : Net = record net { wires = w₂ } in
      let net₄ : Net = record net { wires = rewired r p (frame ∷ []) w₃ } in
      let r_p : w₂ r p ≡ [] =
        rewired-off_source q r (frame ∷ []) w₁ r p rq
        ∙ rewired-off_source p q [] net.wires r p rp
        ∙ w_rp in
      let p_q : net₄.wires p q ≡ [] =
        rewired-off_source r p (frame ∷ []) w₃ p q pr
        ∙ rewired-off_source q r [] w₂ p q pq
        ∙ rewired-off_source q r (frame ∷ []) w₁ p q pq
        ∙ rewired-at p q [] net.wires in
      (
        rw
            (
              hop_lem s ids net p q r m at_q valid same qp w_pq w_qr,
              hop_lem s ids net₂ q r p m at_r valid same rq (rewired-at q r (frame ∷ []) w₁) r_p,
              hop_lem s ids net₄ r p q m at_p valid same pr (rewired-at r p (frame ∷ []) w₃) p_q,
            )
            (λ i. returned (record net {
              wires = λ x y. back_again net.wires p q r (frame ∷ []) w_pq w_qr w_rp x y i;
            })),
        with_events (net.nodes q) (
            generate_event (message p (Message.topic m) m)
            ∷ notify_handler r (send_frame frame)
            ∷ []),
        handled s ids (net.nodes q) p r m at_q valid same,
        unfold told in ap (λ (u : TopicHash). message p u m ∷ []) on_topic,
      )
