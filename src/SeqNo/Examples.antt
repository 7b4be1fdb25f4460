-- ===== src/SeqNo/Examples.antt =====
-- Runs of the generator of floodsub/src/seqno.rs.
use rust_libp2p_pubsub.Prelude.{◌-◌, ◌^◌, ◌≡◌, arith}
use rust_libp2p_pubsub.Prelude.Outcome.{panicked}
use rust_libp2p_pubsub.SeqNo.{take_numbers, take_numbers_lem}

take_numbers_lem_example : take_numbers 2 (record { value = 2 ^ 64 - 2 }) ≡ panicked
take_numbers_lem_example = take_numbers_lem 2 (record { value = 2 ^ 64 - 2 }) (omega arith)
