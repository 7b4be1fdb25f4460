-- ===== src/Proto/Fragmentation/Content.antt =====
-- floodsub/src/proto/fragmentation.rs loses nothing, adds nothing and keeps the order.
use rust_libp2p_pubsub.Prelude.{
  ℕ, ◌+◌, ◌≡◌, refl, sym, ap, ◌∙◌, true, Option, none, some, List, [], ◌∷◌, ltb, arith, append-nil,
  append_assoc, Bool-cases, inl, inr, subst,
}
use rust_libp2p_pubsub.Proto.{ControlItem, ControlMessageProto, RpcProto, new_rpc}
use rust_libp2p_pubsub.Proto.Fragmentation.{
  Sizes, ok, ◌>>=◌, >>=-eq-ok, RpcList, to_list, is_absent, get_or_empty, on_control, push_ihave,
  push_iwant, push_graft, push_prune, on_last, create_or_add_rpc, add_messages, add_subscriptions,
  add_items, fragment_control, add_control, fragment_rpc_message, fragment_large,
}
use rust_libp2p_pubsub.Proto.Fragmentation.Contents.{
  total-to_list, Contents, nothing, contents, join, joined, join-nothing, join_assoc, total,
  total-on_last, subscriptions_only, control_only,
}
use rust_libp2p_pubsub.Proto.Fragmentation.Additions.{
  total-create_or_add, absent-create_or_add, push-Adds, add_messages-Adds, add_subscriptions-Adds,
}

module _ (s : Sizes) (max_size : ℕ) where
  -- The loops over the items of a control message: `only xs` are the contents of the items.
  total-add_items :
      (item_len : ControlItem → ℕ) (push : ControlItem → ControlMessageProto → ControlMessageProto)
      (only : List ControlItem → Contents)
      → (only [] ≡ nothing)
      → ((x : ControlItem) (xs : List ControlItem) → join (only (x ∷ [])) (only xs) ≡ only (x ∷ xs))
      → ((x : ControlItem) (r : RpcProto)
          → contents (on_control (push x) r) ≡ join (contents r) (only (x ∷ [])))
      → (l : RpcList) (xs : List ControlItem)
      → total (add_items s max_size item_len push l xs) ≡ join (total l) (only xs)
  unfolding add_items
  total-add_items item_len push only none_ cons_ one l [] = rw none_ (sym (join-nothing (total l)))
  total-add_items item_len push only none_ cons_ one l (x ∷ xs) =
      total-add_items item_len push only none_ cons_ one
        (on_last (on_control (push x)) (create_or_add_rpc s max_size (item_len x) l)) xs
      ∙ ap (λ (t : Contents). join t (only xs))
          (push-Adds s max_size (on_control (push x)) (item_len x) (only (x ∷ [])) l (one x))
      ∙ join_assoc (total l) (only (x ∷ [])) (only xs)
      ∙ ap (join (total l)) (cons_ x xs)

  total-fragment_control :
      (l : RpcList) (c : ControlMessageProto)
      → total (fragment_control s max_size l c) ≡ join (total l) (control_only c)
  unfolding fragment_control
  total-fragment_control l c =
      let l₁ = add_items s max_size s.ihave_len push_ihave l c.ihave in
      let l₂ = add_items s max_size s.iwant_len push_iwant l₁ c.iwant in
      let l₃ = add_items s max_size s.graft_len push_graft l₂ c.graft in
      total-add_items s.prune_len push_prune (λ xs. record nothing { prune = xs }) refl
        (λ x xs. refl) (λ x r. simp append-nil) l₃ c.prune
      ∙ ap (λ (t : Contents). join t (record nothing { prune = c.prune }))
          (total-add_items s.graft_len push_graft (λ xs. record nothing { graft = xs }) refl
              (λ x xs. refl) (λ x r. simp append-nil) l₂ c.graft
            ∙ ap (λ (t : Contents). join t (record nothing { graft = c.graft }))
                (total-add_items s.iwant_len push_iwant (λ xs. record nothing { iwant = xs }) refl
                    (λ x xs. refl) (λ x r. simp append-nil) l₁ c.iwant
                  ∙ ap (λ (t : Contents). join t (record nothing { iwant = c.iwant }))
                      (total-add_items s.ihave_len push_ihave (λ xs. record nothing { ihave = xs })
                        refl (λ x xs. refl) (λ x r. simp append-nil) l c.ihave)))
      ∙ simp (append-nil, append_assoc)

  set_absent :
      (r : RpcProto) (c : ControlMessageProto) (o : Option ControlMessageProto)
      → is_absent o ≡ true
      → contents (record r { control = some c })
        ≡ join (contents (record r { control = o })) (control_only c)
  set_absent r c none h = simp append-nil
  set_absent r c (some d) h = cc

  contents_set :
      (r : RpcProto) (c : ControlMessageProto)
      → is_absent r.control ≡ true
      → contents (record r { control = some c }) ≡ join (contents r) (control_only c)
  contents_set r c h = set_absent r c r.control h

  total-add_control :
      (l : RpcList) (c : Option ControlMessageProto)
      → is_absent l.last.control ≡ true
      → total (add_control s max_size l c) ≡ join (total l) (control_only (get_or_empty c))
  unfolding add_control
  total-add_control l none h = sym (join-nothing (total l))
  total-add_control l (some c) h = elim (Bool-cases (ltb max_size (s.control_len c + 2))) [
    | inl big ↦ rw big (total-fragment_control l c)
    | inr fits ↦
        let room : RpcList = create_or_add_rpc s max_size (s.control_len c) l in
        rw fits (
          total-on_last (λ r. record r { control = some c }) (control_only c) room
            (contents_set room.last c (absent-create_or_add s max_size (s.control_len c) l h))
          ∙ ap (λ (t : Contents). join t (control_only c))
              (total-create_or_add s max_size (s.control_len c) l))
  ]

  fragment_large-joined :
      (rpc : RpcProto) (rpcs : List RpcProto)
      → fragment_large s max_size rpc ≡ ok rpcs
      → joined rpcs ≡ contents rpc
  unfolding fragment_large
  fragment_large-joined rpc rpcs e =
      let l₀ : RpcList = record { front = []; last = new_rpc } in
      let (l₁, ms, rest) =
        >>=-eq-ok (add_messages s max_size l₀ rpc.publish)
          (λ l. add_subscriptions s max_size l rpc.subscriptions >>= λ k.
            ok (to_list (add_control s max_size k rpc.control)))
          e in
      let (l₂, ss, last) =
        >>=-eq-ok (add_subscriptions s max_size l₁ rpc.subscriptions)
          (λ k. ok (to_list (add_control s max_size k rpc.control))) rest in
      let (first, clear) = add_messages-Adds s max_size l₀ l₁ rpc.publish ms in
      let (second, clear') = add_subscriptions-Adds s max_size l₁ l₂ rpc.subscriptions ss in
      let same : to_list (add_control s max_size l₂ rpc.control) ≡ rpcs = ground arith in
      subst (λ k. joined k ≡ contents rpc) same
        (total-to_list (add_control s max_size l₂ rpc.control)
          ∙ total-add_control l₂ rpc.control (clear' (clear refl))
          ∙ ap (λ (t : Contents). join t (control_only (get_or_empty rpc.control)))
              (second ∙ ap (λ (t : Contents). join t (subscriptions_only rpc.subscriptions)) first)
          ∙ simp append-nil)

  -- If fragmentation succeeds, the frames that come out carry, one after the other, what the frame
  -- that went in carries: each message, subscription and control item once and in its order.
  pub fragment-joined :
      (rpc : RpcProto) (rpcs : List RpcProto)
      → fragment_rpc_message s max_size rpc ≡ ok rpcs
      → joined rpcs ≡ contents rpc
  unfolding fragment_rpc_message
  fragment-joined rpc rpcs e =
      ground (arith, join-nothing (contents rpc), fragment_large-joined rpc rpcs)
