-- ===== src/Network/Words.antt =====
-- What is under way between two nodes of floodsub/src/behaviour.rs says of subscriptions.
use rust_libp2p_pubsub.Prelude.{
  ℕ, ◌≡◌, refl, ◌∙◌, Bool, true, false, ◌&&◌, ◌||◌, List, [], ◌∷◌, ◌++◌, map, is_empty,
  if◌then◌else◌, arith, Bool-cases, inl, inr,
}
use rust_libp2p_pubsub.Prelude.Order.{ℕ-ord, same}
use rust_libp2p_pubsub.Topic.{TopicHash, TopicHash-ord}
use rust_libp2p_pubsub.Collections.BTreeSet
use rust_libp2p_pubsub.Proto.{SubOptsProto}
use rust_libp2p_pubsub.Proto.Fragmentation.{Sizes}
use rust_libp2p_pubsub.Frame.Message.{Message}
use rust_libp2p_pubsub.Frame.SubOpts
use rust_libp2p_pubsub.Frame.SubOpts.{SubscriptionAction, topic_id}
use rust_libp2p_pubsub.Frame.Rpc.{into_rpc}
use rust_libp2p_pubsub.Behaviour.{Behaviour}
use rust_libp2p_pubsub.Behaviour.Sending.{can_send}
use rust_libp2p_pubsub.Behaviour.Receiving.{forwarded}
use rust_libp2p_pubsub.Behaviour.Entries.{heeds, last_word}
use rust_libp2p_pubsub.Behaviour.Network.{joins}
use rust_libp2p_pubsub.Behaviour.Subscribing.{announcement, heard}

pub last_word-append :
    (xs ys : List SubOptsProto) (t : TopicHash) (b : Bool)
    → last_word (xs ++ ys) t b ≡ last_word ys t (last_word xs t b)
last_word-append [] ys t b = refl
last_word-append (x ∷ xs) ys t b = last_word-append xs ys t (heeds x t b)

-- An action on an empty topic says nothing of another.
heeds-action :
    (a : SubscriptionAction) (t : TopicHash) (b : Bool)
    → is_empty t.hash ≡ false
    → heeds (SubOpts.into_proto a) t b ≡ (if same t (topic_id a) then joins a else b)
unfolding SubOpts.into_proto
heeds-action (SubOpts.subscribe u) t b e = ground arith
heeds-action (SubOpts.unsubscribe u) t b e = ground arith

-- All subscriptions of a node say which they are.
pub last_word-own :
    (ts : List TopicHash) (t : TopicHash) (b : Bool)
    → is_empty t.hash ≡ false
    → last_word (map SubOpts.into_proto (map SubOpts.subscribe ts)) t b
      ≡ (BTreeSet.contains t ts || b)
unfolding BTreeSet.contains
last_word-own [] t b e = refl
last_word-own (u ∷ ts) t b e =
    last_word-own ts t (heeds (SubOpts.into_proto (SubOpts.subscribe u)) t b) e
    ∙ ground (arith, heeds-action (SubOpts.subscribe u) t b e)

module _ (s : Sizes) where
  pub last_word-heard :
      (b : Behaviour) (active : Bool) (a : SubscriptionAction) (t : TopicHash) (k : Bool)
      → is_empty t.hash ≡ false
      → can_send s b.config.max_frame_size (announcement a) ≡ true
      → last_word (heard s b active a).subscriptions t k
        ≡ (if active && same t (topic_id a) then joins a else k)
  last_word-heard b active a t k e sendable = elim (Bool-cases active) [
    | inl on ↦ rw (on, sendable) (unfold into_rpc in heeds-action a t k e)
    | inr off ↦ rw off refl
  ]

  -- What is forwarded holds no subscription.
  pub forwarded-subscriptions :
      (max_size : ℕ) (ms : List Message) → (forwarded s max_size ms).subscriptions ≡ []
  unfolding into_rpc
  forwarded-subscriptions max_size ms = ground arith
