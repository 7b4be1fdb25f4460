-- ===== src/Proto/Fragmentation/Errors.antt =====
-- When floodsub/src/proto/fragmentation.rs fails.
use rust_libp2p_pubsub.Prelude.{
  ℕ, ◌+◌, ◌≡◌, refl, Bool, true, false, not, ◌||◌, List, [], ◌∷◌, ltb, arith, inl, inr, ◌⊎◌,
}
use rust_libp2p_pubsub.Proto.{MessageProto, SubOptsProto, RpcProto, new_rpc}
use rust_libp2p_pubsub.Proto.Fragmentation.{
  Sizes, FragmentationError, Result, ok, err, ◌>>=◌, RpcList, add_message, add_messages,
  add_subscription, add_subscriptions, fragment_large, fragment_rpc_message, create_or_add_rpc,
  push_publish, on_last, push_subscription,
}

abbrev pub is_ok {ℓ} : {A : Type ℓ} → Result A → Bool
is_ok (ok a) = true
is_ok (err e) = false

-- Whether an item of a list is too large for a frame of its own.
abbrev pub any_too_large {ℓ} : {A : Type ℓ} → (A → ℕ) → ℕ → List A → Bool
any_too_large item_len max_size [] = false
any_too_large item_len max_size (x ∷ xs) =
    ltb max_size (item_len x + 2) || any_too_large item_len max_size xs

Result-cases {ℓ} :
    {A : Type ℓ} (r : Result A) → ((a : A) × (r ≡ ok a)) ⊎ ((e : FragmentationError) × (r ≡ err e))
Result-cases (ok a) = inl (a, refl)
Result-cases (err e) = inr (e, refl)

module _ (s : Sizes) (max_size : ℕ) where
  is_ok-add_messages :
      (l : RpcList) (ms : List MessageProto)
      → is_ok (add_messages s max_size l ms) ≡ not (any_too_large s.message_len max_size ms)
  unfolding add_messages add_message
  is_ok-add_messages l [] = refl
  is_ok-add_messages l (m ∷ ms) = ground (
    arith,
    is_ok-add_messages
        (on_last (λ r. push_publish r m) (create_or_add_rpc s max_size (s.message_len m) l)) ms,
  )

  is_ok-add_subscriptions :
      (l : RpcList) (ms : List SubOptsProto)
      → is_ok (add_subscriptions s max_size l ms) ≡ not (any_too_large s.subopts_len max_size ms)
  unfolding add_subscriptions add_subscription
  is_ok-add_subscriptions l [] = refl
  is_ok-add_subscriptions l (m ∷ ms) = ground (
    arith,
    is_ok-add_subscriptions
        (on_last (λ r. push_subscription r m) (create_or_add_rpc s max_size (s.subopts_len m) l))
        ms,
  )

  is_ok-fragment_large :
      (rpc : RpcProto)
      → is_ok (fragment_large s max_size rpc)
        ≡ not (
            any_too_large s.message_len max_size rpc.publish
            || any_too_large s.subopts_len max_size rpc.subscriptions)
  unfolding fragment_large
  is_ok-fragment_large rpc =
      let start : RpcList = record { front = []; last = new_rpc } in
      elim (Result-cases (add_messages s max_size start rpc.publish)) [
        | inl (l, e) ↦
            rw (e, ◌>>=◌)
              (ground (
                arith,
                e,
                is_ok-add_messages start rpc.publish,
                is_ok-add_subscriptions l rpc.subscriptions,
              ))
        | inr (x, e) ↦ rw (e, ◌>>=◌) (ground (arith, e, is_ok-add_messages start rpc.publish))
      ]

  -- Fragmentation succeeds exactly if the frame is below the limit as it is, or each of its
  -- messages and subscriptions leaves two bytes below it.
  pub fragment-is_ok :
      (rpc : RpcProto)
      → is_ok (fragment_rpc_message s max_size rpc) ≡ (
          ltb (s.rpc_len rpc) max_size
          || not (
              any_too_large s.message_len max_size rpc.publish
              || any_too_large s.subopts_len max_size rpc.subscriptions))
  unfolding fragment_rpc_message
  fragment-is_ok rpc = ground (arith, is_ok-fragment_large rpc)
