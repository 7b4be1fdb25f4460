-- ===== src/Network/Draining.antt =====
-- A node of floodsub/src/behaviour.rs that is polled until it has nothing left to say, while each frame
-- is handled before the next.
use rust_libp2p_pubsub.Prelude.{ap₂, ◌≡◌, refl, ap, ◌∙◌, List, [], ◌∷◌, length}
use rust_libp2p_pubsub.Prelude.Outcome.{returned}
use rust_libp2p_pubsub.Libp2p.{PeerId, PeerIdBytes}
use rust_libp2p_pubsub.Proto.Fragmentation.{Sizes}
use rust_libp2p_pubsub.Behaviour.{ToSwarm}
use rust_libp2p_pubsub.Network.{Net}
use rust_libp2p_pubsub.Network.Reachable.{Reachable}
use rust_libp2p_pubsub.Network.Hearing.{heard, heard-nil, heard-append, heard-same}
use rust_libp2p_pubsub.Behaviour.{Event}
use rust_libp2p_pubsub.Behaviour.Sending.{sent_to, sent_to-append, told}
use rust_libp2p_pubsub.Proto.Fragmentation.Contents.{Contents}
use rust_libp2p_pubsub.Prelude.{sym, ◌++◌, append-nil, append_assoc}
use rust_libp2p_pubsub.Prelude.{false}
use rust_libp2p_pubsub.Prelude.Order.{ℕ-ord}
use rust_libp2p_pubsub.Behaviour.Sending.{writes_to, writes_to-cons}
use rust_libp2p_pubsub.Network.Exchange.{exchanges_at, Exchanged, exchange_at_lem}

module _ (s : Sizes) (ids : PeerIdBytes) where
  -- A node that writes to others only is polled as often as it has events queued.
  pub exchanges_at_lem :
      (events : List ToSwarm) (net : Net) (p : PeerId)
      → Reachable s ids net
      → (net.nodes p).swarm_out_events ≡ events
      → writes_to p events ≡ false
      → ((q : PeerId) → net.wires p q ≡ [])
      → (net' : Net) × (exchanges_at s ids (length events) net p ≡ returned net')
        × Exchanged s ids net net' p events []
  unfolding exchanges_at
  exchanges_at_lem [] net p r e away clear = (
    net,
    refl,
    record {
      reachable = r;
      queue = e;
      clear = clear;
      same_router = refl;
      same_links = refl;
      same_own = λ q t d. refl;
      tells = λ q d.
          unfold sent_to in
          sym (append-nil (told (net.nodes q).swarm_out_events))
          ∙ ap (λ (k : List Event). told (net.nodes q).swarm_out_events ++ k)
              (sym (heard-nil ids (net.nodes q) p));
    },
  )
  exchanges_at_lem (event ∷ events) net p r e away clear =
      let (first_away, rest_away) = writes_to-cons p event events away in
      let (net₁, done, h) = exchange_at_lem s ids net p event events r e first_away clear in
      let (net', rest, k) = exchanges_at_lem events net₁ p h.reachable h.queue rest_away h.clear in
      (
        net',
        rw done rest,
        record {
          reachable = k.reachable;
          queue = k.queue;
          clear = k.clear;
          same_router = k.same_router ∙ h.same_router;
          same_links = k.same_links ∙ h.same_links;
          same_own = λ q t d. k.same_own q t d ∙ h.same_own q t d;
          tells = λ q d.
              let queue = told (net.nodes q).swarm_out_events in
              let first = (sent_to q (event ∷ [])).publish in
              k.tells q d
              ∙ ap₂ (λ (x y : List Event). x ++ y) (h.tells q d)
                  (heard-same ids (net.nodes q) (net₁.nodes q) p (sent_to q events).publish
                    (λ t. h.same_own q t d))
              ∙ append_assoc queue (heard ids (net.nodes q) p first)
                  (heard ids (net.nodes q) p (sent_to q events).publish)
              ∙ ap (λ (l : List Event). queue ++ l)
                  (sym (heard-append ids (net.nodes q) p first (sent_to q events).publish))
              ∙ ap (λ (c : Contents). queue ++ heard ids (net.nodes q) p c.publish)
                  (sym (sent_to-append q (event ∷ []) events));
        },
      )
