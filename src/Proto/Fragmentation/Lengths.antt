-- ===== src/Proto/Fragmentation/Lengths.antt =====
-- The lengths of the frames that floodsub/src/proto/fragmentation.rs makes, for frames without a
-- control message, as this crate sends them.
use rust_libp2p_pubsub.Prelude.{
  ℕ, ◌+◌, ◌*◌, ◌/◌, ◌≤◌, ◌<◌, ◌≡◌, subst, true, none, List, [], ◌∷◌, ◌++◌, ltb, if◌then◌else◌, All,
  arith, Bool-cases, inl, inr, ◌⊎◌,
}
use rust_libp2p_pubsub.Proto.{MessageProto, SubOptsProto, RpcProto, new_rpc}
use rust_libp2p_pubsub.Proto.Fragmentation.{
  Sizes, ok, ◌>>=◌, >>=-eq-ok, RpcList, to_list, is_new, with_margin, push_publish,
  push_subscription, on_last, create_or_add_rpc, add_message, add_messages, add_subscription,
  add_subscriptions, add_control, fragment_large, fragment_rpc_message,
}

-- The bytes of a protobuf varint.
abbrev pub varint_len : ℕ → ℕ
varint_len n =
    if ltb n 128
    then 1
    else if ltb n 16384
    then 2
    else if ltb n 2097152
    then 3
    else if ltb n 268435456
    then 4
    else 5

-- The wire format: an item of a repeated field is written as a tag of one byte, its length as a
-- varint, and itself.
pub record WireFormat (s : Sizes) : Type 0 where
  pub new_len : s.rpc_len new_rpc ≡ 0
  pub publish_len :
      (r : RpcProto) (m : MessageProto)
      → s.rpc_len (push_publish r m)
        ≡ s.rpc_len r + 1 + varint_len (s.message_len m) + s.message_len m
  pub subscription_len :
      (r : RpcProto) (m : SubOptsProto)
      → s.rpc_len (push_subscription r m)
        ≡ s.rpc_len r + 1 + varint_len (s.subopts_len m) + s.subopts_len m

module _ (s : Sizes) (max_size : ℕ) (w : WireFormat s) where
  abbrev Within : RpcProto → Type 0
  Within r = s.rpc_len r ≤ max_size + 2

  abbrev AllWithin : RpcList → Type 0
  AllWithin l = All Within l.front × Within l.last

  All-append :
      (xs : List RpcProto) (x : RpcProto) → All Within xs → Within x → All Within (xs ++ x ∷ [])
  All-append [] x a h = (h, tt)
  All-append (y ∷ ys) x a h = (a.0, All-append ys x a.1 h)

  is_new-len : (r : RpcProto) → is_new r ≡ true → s.rpc_len r ≡ 0
  is_new-len r e = let same : r ≡ new_rpc = ground arith in rw same w.new_len

  -- The last frame has room for an item of the given length, or holds nothing.
  abbrev HasRoom : ℕ → RpcProto → Type 0
  HasRoom n r = (s.rpc_len r ≡ 0) ⊎ (s.rpc_len r + with_margin n ≤ max_size)

  create_or_add-AllWithin :
      (n : ℕ) (l : RpcList)
      → AllWithin l
      → AllWithin (create_or_add_rpc s max_size n l)
        × HasRoom n (create_or_add_rpc s max_size n l).last
  unfolding create_or_add_rpc
  create_or_add-AllWithin n l a =
      ground (arith, All-append l.front l.last a.0 a.1, w.new_len, is_new-len l.last)

  -- An item that leaves two bytes below the limit exceeds it by two bytes at most.
  push_within :
      (n before after : ℕ)
      → n + 2 ≤ max_size
      → max_size < 2097152
      → after ≡ before + 1 + varint_len n + n
      → (before ≡ 0) ⊎ (before + n * 105 / 100 ≤ max_size)
      → after ≤ max_size + 2
  push_within n before after fits small e room = ground arith

  add_message-AllWithin :
      (l l' : RpcList) (m : MessageProto)
      → max_size < 2097152
      → AllWithin l
      → add_message s max_size l m ≡ ok l'
      → AllWithin l'
  unfolding add_message
  add_message-AllWithin l l' m small a e =
      let n = s.message_len m in
      let room = create_or_add_rpc s max_size n l in
      let (within, free) = create_or_add-AllWithin n l a in
      let fits : n + 2 ≤ max_size = ground arith in
      let same : on_last (λ r. push_publish r m) room ≡ l' = ground arith in
      subst AllWithin same (
        within.0,
        push_within n (s.rpc_len room.last) (s.rpc_len (push_publish room.last m)) fits small
            (w.publish_len room.last m) free,
      )

  add_subscription-AllWithin :
      (l l' : RpcList) (m : SubOptsProto)
      → max_size < 2097152
      → AllWithin l
      → add_subscription s max_size l m ≡ ok l'
      → AllWithin l'
  unfolding add_subscription
  add_subscription-AllWithin l l' m small a e =
      let n = s.subopts_len m in
      let room = create_or_add_rpc s max_size n l in
      let (within, free) = create_or_add-AllWithin n l a in
      let fits : n + 2 ≤ max_size = ground arith in
      let same : on_last (λ r. push_subscription r m) room ≡ l' = ground arith in
      subst AllWithin same (
        within.0,
        push_within n (s.rpc_len room.last) (s.rpc_len (push_subscription room.last m)) fits small
            (w.subscription_len room.last m) free,
      )

  add_messages-AllWithin :
      (l l' : RpcList) (ms : List MessageProto)
      → max_size < 2097152
      → AllWithin l
      → add_messages s max_size l ms ≡ ok l'
      → AllWithin l'
  unfolding add_messages
  add_messages-AllWithin l l' [] small a e =
      let same : l ≡ l' = ground arith in subst AllWithin same a
  add_messages-AllWithin l l' (m ∷ ms) small a e =
      let (k, first, rest) =
        >>=-eq-ok (add_message s max_size l m) (λ k. add_messages s max_size k ms) e in
      add_messages-AllWithin k l' ms small (add_message-AllWithin l k m small a first) rest

  add_subscriptions-AllWithin :
      (l l' : RpcList) (ms : List SubOptsProto)
      → max_size < 2097152
      → AllWithin l
      → add_subscriptions s max_size l ms ≡ ok l'
      → AllWithin l'
  unfolding add_subscriptions
  add_subscriptions-AllWithin l l' [] small a e =
      let same : l ≡ l' = ground arith in subst AllWithin same a
  add_subscriptions-AllWithin l l' (m ∷ ms) small a e =
      let (k, first, rest) =
        >>=-eq-ok (add_subscription s max_size l m) (λ k. add_subscriptions s max_size k ms) e in
      add_subscriptions-AllWithin k l' ms small (add_subscription-AllWithin l k m small a first)
        rest

  fragment_large-Within :
      (rpc : RpcProto) (rpcs : List RpcProto)
      → max_size < 2097152
      → rpc.control ≡ none
      → fragment_large s max_size rpc ≡ ok rpcs
      → All Within rpcs
  unfolding fragment_large add_control
  fragment_large-Within rpc rpcs small plain e =
      let start : RpcList = record { front = []; last = new_rpc } in
      let (l, ms, rest) =
        >>=-eq-ok (add_messages s max_size start rpc.publish)
          (λ l. add_subscriptions s max_size l rpc.subscriptions >>= λ k.
            ok (to_list (add_control s max_size k rpc.control)))
          e in
      let (k, ss, last) =
        >>=-eq-ok (add_subscriptions s max_size l rpc.subscriptions)
          (λ k. ok (to_list (add_control s max_size k rpc.control))) rest in
      let same : to_list k ≡ rpcs = ground arith in
      let a = add_messages-AllWithin start l rpc.publish small (tt, omega (arith, w.new_len)) ms in
      let b = add_subscriptions-AllWithin l k rpc.subscriptions small a ss in
      subst (All Within) same (All-append k.front k.last b.0 b.1)

  -- If the lengths are those of the wire format and the limit is below 2 MiB, the frames that a
  -- frame without a control message is cut into pass the limit by two bytes at most.
  pub fragment-rpc_len :
      (rpc : RpcProto) (rpcs : List RpcProto)
      → max_size < 2097152
      → rpc.control ≡ none
      → fragment_rpc_message s max_size rpc ≡ ok rpcs
      → All (λ r. s.rpc_len r ≤ max_size + 2) rpcs
  unfolding fragment_rpc_message
  fragment-rpc_len rpc rpcs small plain e = elim (Bool-cases (ltb (s.rpc_len rpc) max_size)) [
    | inl fits ↦
        let same : rpc ∷ [] ≡ rpcs = ground arith in subst (All Within) same (ground arith, tt)
    | inr large ↦ fragment_large-Within rpc rpcs small plain (ground arith)
  ]

  -- If the lengths are those of the wire format, a message of 128 bytes or more that leaves just
  -- two bytes below the limit is accepted alone, in a frame that is longer than the limit.
  pub fragment_oversized :
      (m : MessageProto)
      → 128 ≤ s.message_len m
      → s.message_len m + 2 ≡ max_size
      → (fragment_rpc_message s max_size (push_publish new_rpc m)
          ≡ ok (push_publish new_rpc m ∷ []))
        × (max_size < s.rpc_len (push_publish new_rpc m))
  unfolding fragment_rpc_message fragment_large add_messages add_message add_subscriptions
      add_control create_or_add_rpc
  fragment_oversized m long exact = ground (arith, w.new_len, w.publish_len new_rpc m)
