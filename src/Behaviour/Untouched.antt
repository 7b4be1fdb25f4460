-- ===== src/Behaviour/Untouched.antt =====
-- What `on_received_rpc_frame` of floodsub/src/behaviour.rs leaves as it was.
use rust_libp2p_pubsub.Prelude.{◌≡◌, refl, ap, ◌∙◌, List, [], ◌∷◌, arith, inl, inr, Bool-cases}
use rust_libp2p_pubsub.Prelude.Order.{ℕ-ord}
use rust_libp2p_pubsub.Prelude.Outcome.{returned}
use rust_libp2p_pubsub.Libp2p.{PeerId, PeerIdBytes}
use rust_libp2p_pubsub.Topic.{TopicHash, from_raw}
use rust_libp2p_pubsub.Router
use rust_libp2p_pubsub.Router.{Router}
use rust_libp2p_pubsub.Router.Invariant.{IsCoherent}
use rust_libp2p_pubsub.Router.Refinement.{step_own, adds, removes, step, spec_own}
use rust_libp2p_pubsub.Proto.{RpcProto}
use rust_libp2p_pubsub.Proto.Validation.{is_ok, validate_rpc_proto}
use rust_libp2p_pubsub.Proto.Fragmentation.{Sizes}
use rust_libp2p_pubsub.Frame.SubOpts
use rust_libp2p_pubsub.Frame.SubOpts.{SubscriptionAction}
use rust_libp2p_pubsub.Behaviour.{Behaviour}
use rust_libp2p_pubsub.Behaviour.Incoming.{
  handle_received_messages, handle_received_subscriptions, convert_messages, on_received_rpc_frame,
}
use rust_libp2p_pubsub.Behaviour.Receiving.{handle_received_messages_lem}
use rust_libp2p_pubsub.Behaviour.Assertions.{conversions_hold_lem, routes_hold-filter_subscribed}
use rust_libp2p_pubsub.Behaviour.Entries.{convert_subscriptions_lem}

-- The configuration, the connections and the node's own subscriptions.
pub record SameNode (b b' : Behaviour) : Type 0 where
  pub same_config : b'.config ≡ b.config
  pub same_connections : b'.connections ≡ b.connections
  pub same_own :
      (u : TopicHash) → Router.is_subscribed b'.router u ≡ Router.is_subscribed b.router u

handle_received_subscriptions-SameNode :
    (b : Behaviour) (src : PeerId) (actions : List SubscriptionAction)
    → SameNode b (handle_received_subscriptions b src actions)
unfolding handle_received_subscriptions step spec_own
handle_received_subscriptions-SameNode b src [] = record {
  same_config = refl;
  same_connections = refl;
  same_own = λ u. refl;
}
handle_received_subscriptions-SameNode b src (SubOpts.subscribe t ∷ actions) =
    let h =
      handle_received_subscriptions-SameNode
        (record b { router = Router.add_peer_subscription b.router src t }) src actions in
    record {
      same_config = h.same_config;
      same_connections = h.same_connections;
      same_own = λ u. h.same_own u ∙ step_own b.router (adds src t) u;
    }
handle_received_subscriptions-SameNode b src (SubOpts.unsubscribe t ∷ actions) =
    let h =
      handle_received_subscriptions-SameNode
        (record b { router = Router.remove_peer_subscription b.router src t }) src actions in
    record {
      same_config = h.same_config;
      same_connections = h.same_connections;
      same_own = λ u. h.same_own u ∙ step_own b.router (removes src t) u;
    }

pub on_received_rpc_frame-SameNode :
    (s : Sizes) (p : PeerIdBytes) (b b' : Behaviour) (src : PeerId) (frame : RpcProto)
    → IsCoherent b.router
    → on_received_rpc_frame s p b src frame ≡ returned b'
    → SameNode b b'
unfolding on_received_rpc_frame
on_received_rpc_frame-SameNode s p b b' src frame c e =
    let b₁ = handle_received_messages s b src (convert_messages p.from_bytes frame.publish) in
    let (sent, tells, same) =
      handle_received_messages_lem s b src (convert_messages p.from_bytes frame.publish) 0 c in
    let (actions, f, says) = convert_subscriptions_lem frame.subscriptions src 0 (from_raw []) in
    let h = handle_received_subscriptions-SameNode b₁ src actions in
    elim (Bool-cases (is_ok (validate_rpc_proto frame))) [
      | inl v ↦
          let there : b' ≡ handle_received_subscriptions b₁ src actions = ground (
            arith,
            e,
            f,
            v,
            conversions_hold_lem p frame.publish,
            routes_hold-filter_subscribed b.router (convert_messages p.from_bytes frame.publish),
          ) in
          rw there (record {
            same_config = h.same_config ∙ same.same_config;
            same_connections = h.same_connections ∙ same.same_connections;
            same_own =
                λ u. h.same_own u ∙ ap (λ (r : Router). Router.is_subscribed r u) same.same_router;
          })
      | inr v ↦
          let there : b' ≡ b = ground (arith, e, v) in
          rw there (record { same_config = refl; same_connections = refl; same_own = λ u. refl })
    ]
