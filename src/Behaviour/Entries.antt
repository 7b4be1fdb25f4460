-- ===== src/Behaviour/Entries.antt =====
-- What the subscriptions of a frame say, to floodsub/src/behaviour.rs that handles it.
use rust_libp2p_pubsub.Prelude.{
  ◌≡◌, refl, ◌∙◌, Bool, true, false, not, ◌&&◌, Option, none, some, List, [], ◌∷◌, map, is_empty,
  if◌then◌else◌, arith, inl, inr, Bool-cases,
}
use rust_libp2p_pubsub.Prelude.Order.{ℕ-ord, same, Bytes}
use rust_libp2p_pubsub.Prelude.Outcome.{returned}
use rust_libp2p_pubsub.Libp2p.{PeerId}
use rust_libp2p_pubsub.Topic.{TopicHash, TopicHash-ord, from_raw}
use rust_libp2p_pubsub.Router
use rust_libp2p_pubsub.Router.{Router, propagation_routes}
use rust_libp2p_pubsub.Router.Refinement.{run, Call, adds, removes, step, spec_peer_run, spec_peer}
use rust_libp2p_pubsub.Proto.{SubOptsProto}
use rust_libp2p_pubsub.Proto.Validation.{is_ok, validate_subopts_proto}
use rust_libp2p_pubsub.Frame.SubOpts
use rust_libp2p_pubsub.Frame.SubOpts.{SubscriptionAction, into_proto-from_proto}
use rust_libp2p_pubsub.Behaviour.{Behaviour}
use rust_libp2p_pubsub.Behaviour.Incoming.{handle_received_subscriptions, convert_subscriptions}

-- What one entry says of a topic, if it is valid and about it.
abbrev said : Option Bool → Option Bytes → TopicHash → Bool → Bool
said (some flag) (some topic) t b =
    if not (is_empty topic) && same t (from_raw topic) then flag else b
said _ _ t b = b

abbrev pub heeds : SubOptsProto → TopicHash → Bool → Bool
heeds sub t b = said sub.subscribe sub.topic_id t b

-- The last word of a frame's subscriptions on a topic, invalid ones left out.
abbrev pub last_word : List SubOptsProto → TopicHash → Bool → Bool
last_word [] t b = b
last_word (sub ∷ subs) t b = last_word subs t (heeds sub t b)

abbrev pub as_call : PeerId → SubscriptionAction → Call
as_call src (SubOpts.subscribe topic) = adds src topic
as_call src (SubOpts.unsubscribe topic) = removes src topic

pub router-handle_received_subscriptions :
    (b : Behaviour) (src : PeerId) (actions : List SubscriptionAction)
    → let b' = handle_received_subscriptions b src actions in
      (b'.router ≡ run b.router (map (as_call src) actions))
      × (b'.swarm_out_events ≡ b.swarm_out_events)
unfolding handle_received_subscriptions run step
router-handle_received_subscriptions b src [] = (refl, refl)
router-handle_received_subscriptions b src (SubOpts.subscribe topic ∷ actions) =
    router-handle_received_subscriptions
      (record b { router = Router.add_peer_subscription b.router src topic }) src actions
router-handle_received_subscriptions b src (SubOpts.unsubscribe topic ∷ actions) =
    router-handle_received_subscriptions
      (record b { router = Router.remove_peer_subscription b.router src topic }) src actions

valid_entry :
    (flag : Option Bool) (topic : Option Bytes) (src q : PeerId) (t : TopicHash)
    → is_ok (validate_subopts_proto (record { subscribe = flag; topic_id = topic })) ≡ true
    → (a : SubscriptionAction) × (SubOpts.from_proto (record { subscribe = flag; topic_id = topic })
        ≡ returned a)
      × ((b : Bool)
          → spec_peer (as_call src a) q t b ≡ (if same q src then said flag topic t b else b))
unfolding validate_subopts_proto SubOpts.from_proto SubOpts.read_subopts spec_peer
valid_entry (some true) (some u) src q t v =
    (SubOpts.subscribe (from_raw u), rw v refl, λ b. ground arith)
valid_entry (some false) (some u) src q t v =
    (SubOpts.unsubscribe (from_raw u), rw v refl, λ b. ground arith)
valid_entry (some f) none src q t v = absurd (cc)
valid_entry none none src q t v = absurd (cc)
valid_entry none (some u) src q t v = absurd (ground arith)

invalid_entry :
    (flag : Option Bool) (topic : Option Bytes) (t : TopicHash) (b : Bool)
    → is_ok (validate_subopts_proto (record { subscribe = flag; topic_id = topic })) ≡ false
    → said flag topic t b ≡ b
unfolding validate_subopts_proto
invalid_entry (some f) (some u) t b v = ground arith
invalid_entry (some f) none t b v = refl
invalid_entry none topic t b v = refl

-- The actions say what the entries say.
abbrev pub Says : List SubOptsProto → PeerId → PeerId → TopicHash → List SubscriptionAction → Type 0
Says subs src q t actions =
    (b : Bool)
    → spec_peer_run (map (as_call src) actions) q t b
      ≡ (if same q src then last_word subs t b else b)

-- The conversion does not panic.
pub convert_subscriptions_lem :
    (subs : List SubOptsProto) (src q : PeerId) (t : TopicHash)
    → (actions : List SubscriptionAction) × (convert_subscriptions subs ≡ returned actions)
      × Says subs src q t actions
unfolding convert_subscriptions spec_peer_run
convert_subscriptions_lem [] src q t = ([], refl, λ b. ground arith)
convert_subscriptions_lem (sub ∷ subs) src q t =
    let (actions, e, says) = convert_subscriptions_lem subs src q t in
    elim (Bool-cases (is_ok (validate_subopts_proto sub))) [
      | inl v ↦
          let (a, f, means) = valid_entry sub.subscribe sub.topic_id src q t v in
          (
            a ∷ actions,
            rw (v, e) (rw f refl),
            λ b. says (spec_peer (as_call src a) q t b) ∙ ground (arith, means b),
          )
      | inr v ↦ (
        actions,
        rw (v, e) refl,
        λ b. says b ∙ ground (arith, invalid_entry sub.subscribe sub.topic_id t b v),
      )
    ]
