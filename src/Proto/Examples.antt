-- ===== src/Proto/Examples.antt =====
-- Runs of floodsub/src/proto/fragmentation.rs, with a limit of 40 bytes.
use rust_libp2p_pubsub.Prelude.{
  ℕ, zero, suc, ◌≤◌, ◌<◌, ◌≡◌, refl, not, ◌||◌, none, some, List, [], ◌∷◌, ltb, All, arith,
}
use rust_libp2p_pubsub.Proto.{MessageProto, RpcProto, new_rpc}
use rust_libp2p_pubsub.Proto.Fragmentation.{ok, fragment_rpc_message, push_publish}
use rust_libp2p_pubsub.Proto.Fragmentation.Content.{fragment-joined}
use rust_libp2p_pubsub.Proto.Fragmentation.Contents.{joined, contents}
use rust_libp2p_pubsub.Proto.Fragmentation.Errors.{is_ok, any_too_large, fragment-is_ok}
use rust_libp2p_pubsub.Proto.Fragmentation.Lengths.{fragment-rpc_len, fragment_oversized}
use rust_libp2p_pubsub.Fixtures.{sizes, wire_format, note}

-- A payload of many bytes.
abbrev bytes : ℕ → List ℕ
bytes zero = []
bytes (suc n) = b'x' ∷ bytes n

abbrev sized : ℕ → MessageProto
sized n = record note { payload = some (bytes n) }

abbrev large : RpcProto
large = record { subscriptions = []; publish = sized 20 ∷ sized 21 ∷ []; control = none }

abbrev pieces : List RpcProto
pieces =
    record { subscriptions = []; publish = sized 20 ∷ []; control = none }
    ∷ record { subscriptions = []; publish = sized 21 ∷ []; control = none }
    ∷ []

large_cut : fragment_rpc_message sizes 40 large ≡ ok pieces
unfolding fragment_rpc_message rust_libp2p_pubsub.Proto.Fragmentation.add_messages
    rust_libp2p_pubsub.Proto.Fragmentation.add_message
    rust_libp2p_pubsub.Proto.Fragmentation.add_subscriptions
    rust_libp2p_pubsub.Proto.Fragmentation.add_control
    rust_libp2p_pubsub.Proto.Fragmentation.create_or_add_rpc
large_cut = refl

fragment-joined_example : joined pieces ≡ contents large
fragment-joined_example = fragment-joined sizes 40 large pieces large_cut

fragment-is_ok_example : is_ok (fragment_rpc_message sizes 40 large) ≡ (
    ltb (sizes.rpc_len large) 40
    || not (
        any_too_large sizes.message_len 40 large.publish
        || any_too_large sizes.subopts_len 40 large.subscriptions))
fragment-is_ok_example = fragment-is_ok sizes 40 large

fragment-rpc_len_example : All (λ r. sizes.rpc_len r ≤ 42) pieces
fragment-rpc_len_example =
    fragment-rpc_len sizes 40 wire_format large pieces (omega arith) refl large_cut

fragment_oversized_example :
    (fragment_rpc_message sizes 201 (push_publish new_rpc (sized 198))
      ≡ ok (push_publish new_rpc (sized 198) ∷ []))
    × (201 < sizes.rpc_len (push_publish new_rpc (sized 198)))
fragment_oversized_example = fragment_oversized sizes 201 wire_format (sized 198) (omega arith) refl
