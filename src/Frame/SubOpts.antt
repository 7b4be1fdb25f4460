-- ===== src/Frame/SubOpts.antt =====
-- floodsub/src/frame/subopts.rs: a subscription action and its protobuf form.
use rust_libp2p_pubsub.Prelude.{
  ◌≡◌, refl, Bool, true, false, not, Option, none, some, is_empty, arith, ◌↔◌, if◌then◌else◌,
}
use rust_libp2p_pubsub.Prelude.Order.{Bytes}
use rust_libp2p_pubsub.Prelude.Outcome.{Outcome, returned, panicked}
use rust_libp2p_pubsub.Topic.{TopicHash, from_raw, into_string}
use rust_libp2p_pubsub.Proto.{SubOptsProto}
use rust_libp2p_pubsub.Proto.Validation.{Checked, is_ok, validate_subopts_proto}

pub data SubscriptionAction : Type 0 where
  subscribe unsubscribe : TopicHash → SubscriptionAction

abbrev is_subscribe : SubscriptionAction → Bool
is_subscribe (subscribe topic) = true
is_subscribe (unsubscribe topic) = false

abbrev is_unsubscribe : SubscriptionAction → Bool
is_unsubscribe action = not (is_subscribe action)

abbrev pub topic_id : SubscriptionAction → TopicHash
topic_id (subscribe topic) = topic
topic_id (unsubscribe topic) = topic

abbrev into_pair : SubscriptionAction → TopicHash × Bool
into_pair (subscribe topic) = (topic, true)
into_pair (unsubscribe topic) = (topic, false)

-- The `match` of `From<SubOptsProto>`, whose last case is `unreachable!`
unfoldable pub read_subopts : Option Bool → Option Bytes → Outcome SubscriptionAction
read_subopts (some true) (some topic) = returned (subscribe (from_raw topic))
read_subopts (some false) (some topic) = returned (unsubscribe (from_raw topic))
read_subopts _ _ = panicked

-- `From<SubOptsProto>`, with its debug assertion
unfoldable pub from_proto : SubOptsProto → Outcome SubscriptionAction
unfolding read_subopts
from_proto proto =
    if not (is_ok (validate_subopts_proto proto))
    then panicked
    else read_subopts proto.subscribe proto.topic_id

-- `From<SubscriptionAction>`
unfoldable pub into_proto : SubscriptionAction → SubOptsProto
into_proto action = record {
  subscribe = some (into_pair action).1;
  topic_id = some (into_string (into_pair action).0);
}

-- What is written of a subscription action is read back if the topic is not empty; if it is, the
-- debug assertion of the conversion fails. It passes the validation exactly if the topic is not
-- empty.
pub from_proto-into_proto :
    (a : SubscriptionAction)
    → (from_proto (into_proto a) ≡ (if is_empty (topic_id a).hash then panicked else returned a))
      × ((validate_subopts_proto (into_proto a) ≡ Checked.ok)
          ↔ (is_empty (topic_id a).hash ≡ false))
unfolding from_proto into_proto validate_subopts_proto
from_proto-into_proto (subscribe t) = (ground arith, ground arith)
from_proto-into_proto (unsubscribe t) = (ground arith, ground arith)

read_back :
    (s : Option Bool) (t : Option Bytes)
    → validate_subopts_proto (record { subscribe = s; topic_id = t }) ≡ Checked.ok
    → (a : SubscriptionAction) × (read_subopts s t ≡ returned a)
      × (into_proto a ≡ record { subscribe = s; topic_id = t })
unfolding read_subopts into_proto validate_subopts_proto
read_back (some true) (some t) h = (subscribe (from_raw t), refl, refl)
read_back (some false) (some t) h = (unsubscribe (from_raw t), refl, refl)
read_back (some b) none h = absurd (cc)
read_back none (some t) h = absurd (ground arith)
read_back none none h = absurd (cc)

-- A subscription that passes the validation is read without a panic, and written again as it was.
pub into_proto-from_proto :
    (proto : SubOptsProto)
    → validate_subopts_proto proto ≡ Checked.ok
    → (a : SubscriptionAction) × (from_proto proto ≡ returned a) × (into_proto a ≡ proto)
unfolding from_proto
into_proto-from_proto proto h =
    let (a, e, back) = read_back proto.subscribe proto.topic_id h in (a, rw h e, back)
