-- ===== src/Proto/Fragmentation.antt =====
-- floodsub/src/proto/fragmentation.rs: a frame that is too large is cut into several. The encoded
-- lengths are what the generated code computes, an argument (`Sizes`).
pub mod Contents
pub mod Additions
pub mod Content
pub mod Errors
pub mod Lengths
use rust_libp2p_pubsub.Prelude.{
  ℕ, ◌+◌, ◌*◌, ◌/◌, ◌≡◌, refl, Bool, true, false, not, ◌&&◌, Option, none, some, List, [], ◌∷◌,
  ◌++◌, ltb, is_empty, if◌then◌else◌,
}
use rust_libp2p_pubsub.Proto.{
  MessageProto, SubOptsProto, ControlItem, ControlMessageProto, RpcProto, empty_control, new_rpc,
}

pub data FragmentationError : Type 0 where
  message_too_large : FragmentationError

-- `Result<_, FragmentationError>`, and `?`
pub data Result {ℓ} (A : Type ℓ) : Type ℓ where
  err : FragmentationError → Result A
  ok : A → Result A

infixl 5 ◌>>=◌
abbrev pub ◌>>=◌ {ℓ κ} : {B : Type ℓ} {A : Type κ} → Result A → (A → Result B) → Result B
err reason >>= next = err reason
ok x >>= next = next x

pub >>=-eq-ok {ℓ κ} :
    {B : Type ℓ} {A : Type κ} (first : Result A) (next : A → Result B) {y : B}
    → (first >>= next) ≡ ok y
    → (x : A) × (first ≡ ok x) × (next x ≡ ok y)
>>=-eq-ok (err reason) next e = cc
>>=-eq-ok (ok x) next e = (x, refl, e)

-- `encoded_len` of each message type.
pub record Sizes : Type 0 where
  pub rpc_len : RpcProto → ℕ
  pub message_len : MessageProto → ℕ
  pub subopts_len : SubOptsProto → ℕ
  pub control_len : ControlMessageProto → ℕ
  pub ihave_len : ControlItem → ℕ
  pub iwant_len : ControlItem → ℕ
  pub graft_len : ControlItem → ℕ
  pub prune_len : ControlItem → ℕ

-- `rpc_list`, which is never empty: all but the last, and the last.
pub record RpcList : Type 0 where
  pub front : List RpcProto
  pub last : RpcProto

abbrev pub to_list : RpcList → List RpcProto
to_list l = l.front ++ l.last ∷ []

abbrev pub is_absent {ℓ} : {A : Type ℓ} → Option A → Bool
is_absent none = true
is_absent (some a) = false

-- `rpc == new_rpc`
abbrev pub is_new : RpcProto → Bool
is_new rpc = is_empty rpc.subscriptions && is_empty rpc.publish && is_absent rpc.control

-- `((object_size as f64) * 1.05) as usize`. The double next to 1.05 lies just above it, and a size
-- below 2^45 times it is off by far less than the 1/20 that would move it past a whole number, so
-- that the cast gives 105 hundredths, rounded down.
abbrev pub with_margin : ℕ → ℕ
with_margin object_size = object_size * 105 / 100

abbrev pub get_or_empty : Option ControlMessageProto → ControlMessageProto
get_or_empty none = empty_control
get_or_empty (some control) = control

abbrev pub push_publish : RpcProto → MessageProto → RpcProto
push_publish rpc m = record rpc { publish = rpc.publish ++ m ∷ [] }

abbrev pub push_subscription : RpcProto → SubOptsProto → RpcProto
push_subscription rpc s = record rpc { subscriptions = rpc.subscriptions ++ s ∷ [] }

abbrev pub on_control : (ControlMessageProto → ControlMessageProto) → RpcProto → RpcProto
on_control f rpc = record rpc { control = some (f (get_or_empty rpc.control)) }

abbrev pub push_ihave : ControlItem → ControlMessageProto → ControlMessageProto
push_ihave x c = record c { ihave = c.ihave ++ x ∷ [] }

abbrev pub push_iwant : ControlItem → ControlMessageProto → ControlMessageProto
push_iwant x c = record c { iwant = c.iwant ++ x ∷ [] }

abbrev pub push_graft : ControlItem → ControlMessageProto → ControlMessageProto
push_graft x c = record c { graft = c.graft ++ x ∷ [] }

abbrev pub push_prune : ControlItem → ControlMessageProto → ControlMessageProto
push_prune x c = record c { prune = c.prune ++ x ∷ [] }

abbrev pub on_last : (RpcProto → RpcProto) → RpcList → RpcList
on_last f l = record l { last = f l.last }

module _ (s : Sizes) (max_size : ℕ) where
  open s use {
    rpc_len, message_len, subopts_len, control_len, ihave_len, iwant_len, graft_len, prune_len,
  }

  -- `create_or_add_rpc!`
  unfoldable pub create_or_add_rpc : ℕ → RpcList → RpcList
  create_or_add_rpc object_size l =
      if ltb max_size (rpc_len l.last + with_margin object_size) && not (is_new l.last)
      then record { front = l.front ++ l.last ∷ []; last = new_rpc }
      else l

  -- `add_item!` for `publish`, and its loop
  unfoldable pub add_message : RpcList → MessageProto → Result RpcList
  add_message l message =
      if ltb max_size (message_len message + 2)
      then err message_too_large
      else ok (on_last (λ r. push_publish r message) (create_or_add_rpc (message_len message) l))

  unfoldable pub add_messages : RpcList → List MessageProto → Result RpcList
  add_messages l [] = ok l
  add_messages l (message ∷ messages) = do l' ← add_message l message; add_messages l' messages

  -- `add_item!` for `subscriptions`, and its loop
  unfoldable pub add_subscription : RpcList → SubOptsProto → Result RpcList
  add_subscription l subscription =
      if ltb max_size (subopts_len subscription + 2)
      then err message_too_large
      else ok (
          on_last (λ r. push_subscription r subscription)
            (create_or_add_rpc (subopts_len subscription) l))

  unfoldable pub add_subscriptions : RpcList → List SubOptsProto → Result RpcList
  add_subscriptions l [] = ok l
  add_subscriptions l (subscription ∷ subscriptions) = do
    l' ← add_subscription l subscription
    add_subscriptions l' subscriptions

  -- The four loops over the items of a control message, which differ in the list that they fill.
  unfoldable pub add_items :
      (ControlItem → ℕ)
      → (ControlItem → ControlMessageProto → ControlMessageProto)
      → RpcList
      → List ControlItem
      → RpcList
  add_items item_len push_item l [] = l
  add_items item_len push_item l (x ∷ xs) =
      add_items item_len push_item
        (on_last (on_control (push_item x)) (create_or_add_rpc (item_len x) l)) xs

  unfoldable pub fragment_control : RpcList → ControlMessageProto → RpcList
  fragment_control l control =
      add_items prune_len push_prune
        (add_items graft_len push_graft
          (add_items iwant_len push_iwant (add_items ihave_len push_ihave l control.ihave)
            control.iwant)
          control.graft)
        control.prune

  unfoldable pub add_control : RpcList → Option ControlMessageProto → RpcList
  add_control l none = l
  add_control l (some control) =
      if ltb max_size (control_len control + 2)
      then fragment_control l control
      else on_last (λ r. record r { control = some control })
          (create_or_add_rpc (control_len control) l)

  -- What `fragment_rpc_message` does with a frame that is too large to be sent as it is.
  unfoldable pub fragment_large : RpcProto → Result (List RpcProto)
  fragment_large rpc = do
    l ← add_messages (record { front = []; last = new_rpc }) rpc.publish
    l' ← add_subscriptions l rpc.subscriptions
    ok (to_list (add_control l' rpc.control))

  unfoldable pub fragment_rpc_message : RpcProto → Result (List RpcProto)
  unfolding fragment_large
  fragment_rpc_message rpc =
      if ltb (rpc_len rpc) max_size then ok (rpc ∷ []) else fragment_large rpc
