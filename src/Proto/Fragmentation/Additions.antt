-- ===== src/Proto/Fragmentation/Additions.antt =====
-- The loops of floodsub/src/proto/fragmentation.rs over messages and subscriptions add what they go over.
use rust_libp2p_pubsub.Prelude.{
  ℕ, ◌+◌, ◌≡◌, sym, ap, ◌∙◌, true, not, ◌&&◌, List, [], ◌∷◌, ltb, arith, Bool-cases, inl, inr,
  subst,
}
use rust_libp2p_pubsub.Proto.{MessageProto, SubOptsProto, RpcProto}
use rust_libp2p_pubsub.Proto.Fragmentation.{
  Sizes, ok, >>=-eq-ok, RpcList, to_list, is_absent, is_new, push_publish, push_subscription,
  on_last, create_or_add_rpc, add_message, add_messages, add_subscription, add_subscriptions,
  with_margin,
}
use rust_libp2p_pubsub.Proto.Fragmentation.Contents.{
  total-to_list, Contents, nothing, contents, join, joined, join-nothing, join_assoc, total,
  total-on_last, messages_only, subscriptions_only, contents-push_publish,
  contents-push_subscription,
}

module _ (s : Sizes) (max_size : ℕ) where
  pub total-create_or_add :
      (n : ℕ) (l : RpcList) → total (create_or_add_rpc s max_size n l) ≡ total l
  unfolding create_or_add_rpc
  total-create_or_add n l =
      elim (Bool-cases (ltb max_size (s.rpc_len l.last + with_margin n) && not (is_new l.last))) [
        | inl e ↦ rw e (join-nothing (joined (to_list l)) ∙ total-to_list l)
        | inr e ↦ rw e
      ]

  -- No control message is in the last frame while messages and subscriptions are added.
  pub absent-create_or_add :
      (n : ℕ) (l : RpcList)
      → is_absent l.last.control ≡ true
      → is_absent (create_or_add_rpc s max_size n l).last.control ≡ true
  unfolding create_or_add_rpc
  absent-create_or_add n l h = ground arith

  abbrev Adds : RpcList → RpcList → Contents → Type 0
  Adds l l' extra =
      (total l' ≡ join (total l) extra)
      × (is_absent l.last.control ≡ true → is_absent l'.last.control ≡ true)

  Adds-refl : (l : RpcList) → Adds l l nothing
  Adds-refl l = (sym (join-nothing (total l)), λ h. h)

  Adds-trans :
      (l l' l'' : RpcList) (a b : Contents) → Adds l l' a → Adds l' l'' b → Adds l l'' (join a b)
  Adds-trans l l' l'' a b p q =
      (q.0 ∙ ap (λ (t : Contents). join t b) p.0 ∙ join_assoc (total l) a b, λ h. q.1 (p.1 h))

  add_message_ok :
      (l l' : RpcList) (m : MessageProto)
      → add_message s max_size l m ≡ ok l'
      → on_last (λ r. push_publish r m) (create_or_add_rpc s max_size (s.message_len m) l) ≡ l'
  unfolding add_message
  add_message_ok l l' m e = ground arith

  add_subscription_ok :
      (l l' : RpcList) (m : SubOptsProto)
      → add_subscription s max_size l m ≡ ok l'
      → on_last (λ r. push_subscription r m) (create_or_add_rpc s max_size (s.subopts_len m) l) ≡ l'
  unfolding add_subscription
  add_subscription_ok l l' m e = ground arith

  -- To make room and then push one thing.
  pub push-Adds :
      (g : RpcProto → RpcProto) (n : ℕ) (extra : Contents) (l : RpcList)
      → ((r : RpcProto) → contents (g r) ≡ join (contents r) extra)
      → total (on_last g (create_or_add_rpc s max_size n l)) ≡ join (total l) extra
  push-Adds g n extra l h =
      let room : RpcList = create_or_add_rpc s max_size n l in
      total-on_last g extra room (h room.last)
      ∙ ap (λ (t : Contents). join t extra) (total-create_or_add n l)

  add_message-Adds :
      (l l' : RpcList) (m : MessageProto)
      → add_message s max_size l m ≡ ok l'
      → Adds l l' (messages_only (m ∷ []))
  add_message-Adds l l' m e =
      subst (λ k. Adds l k (messages_only (m ∷ []))) (add_message_ok l l' m e)
        (
          push-Adds (λ r. push_publish r m) (s.message_len m) (messages_only (m ∷ [])) l
              (λ r. contents-push_publish r m),
          absent-create_or_add (s.message_len m) l,
        )

  add_subscription-Adds :
      (l l' : RpcList) (m : SubOptsProto)
      → add_subscription s max_size l m ≡ ok l'
      → Adds l l' (subscriptions_only (m ∷ []))
  add_subscription-Adds l l' m e =
      subst (λ k. Adds l k (subscriptions_only (m ∷ []))) (add_subscription_ok l l' m e)
        (
          push-Adds (λ r. push_subscription r m) (s.subopts_len m) (subscriptions_only (m ∷ [])) l
              (λ r. contents-push_subscription r m),
          absent-create_or_add (s.subopts_len m) l,
        )

  pub add_messages-Adds :
      (l l' : RpcList) (ms : List MessageProto)
      → add_messages s max_size l ms ≡ ok l'
      → Adds l l' (messages_only ms)
  unfolding add_messages
  add_messages-Adds l l' [] e =
      let same : l ≡ l' = ground arith in subst (λ k. Adds l k nothing) same (Adds-refl l)
  add_messages-Adds l l' (m ∷ ms) e =
      let (l₁, first, rest) =
        >>=-eq-ok (add_message s max_size l m) (λ k. add_messages s max_size k ms) e in
      Adds-trans l l₁ l' (messages_only (m ∷ [])) (messages_only ms) (add_message-Adds l l₁ m first)
        (add_messages-Adds l₁ l' ms rest)

  pub add_subscriptions-Adds :
      (l l' : RpcList) (ms : List SubOptsProto)
      → add_subscriptions s max_size l ms ≡ ok l'
      → Adds l l' (subscriptions_only ms)
  unfolding add_subscriptions
  add_subscriptions-Adds l l' [] e =
      let same : l ≡ l' = ground arith in subst (λ k. Adds l k nothing) same (Adds-refl l)
  add_subscriptions-Adds l l' (m ∷ ms) e =
      let (l₁, first, rest) =
        >>=-eq-ok (add_subscription s max_size l m) (λ k. add_subscriptions s max_size k ms) e in
      Adds-trans l l₁ l' (subscriptions_only (m ∷ [])) (subscriptions_only ms)
        (add_subscription-Adds l l₁ m first) (add_subscriptions-Adds l₁ l' ms rest)
