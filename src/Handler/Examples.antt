-- ===== src/Handler/Examples.antt =====
-- Runs of the handlers of floodsub/src/handler.rs.

use rust_libp2p_pubsub.Prelude.{◌≡◌, refl, true, false, some, List, [], ◌∷◌}
use rust_libp2p_pubsub.Prelude.Order.{Bytes}
use rust_libp2p_pubsub.Proto.{RpcProto, new_rpc}
use rust_libp2p_pubsub.Handler.Types.{
  send_frame, waiting_output, fully_negotiated_inbound, fully_negotiated_outbound,
  listen_upgrade_error, never, denied, protocol_unsupported,
}
use rust_libp2p_pubsub.Handler.{
  Handler, new, poll, on_behaviour_event, on_connection_event, connection_keep_alive,
  listen_protocol, disable,
}
use rust_libp2p_pubsub.Handler.Simple
use rust_libp2p_pubsub.Handler.Simple.{SimpleHandler}
use rust_libp2p_pubsub.Handler.Simple.Loop.{EndKeeps}
use rust_libp2p_pubsub.Handler.Simple.Order.{Sends, poll-reverse}
use rust_libp2p_pubsub.Handler.Disabling.{
  PollsDisabled, EndsDisabled, disabled_stays, Accounts, on_connection_event-Accounts,
}
use rust_libp2p_pubsub.Handler.Soundness.{IsSoundHandler, ReturnsSound}
use rust_libp2p_pubsub.Handler.Reachable.{start, next, command, Reach-no_panic}
use rust_libp2p_pubsub.Fixtures.{sink, sink_takes_all, event_kinds, note_frame}

abbrev protocol : Bytes
protocol = b'/' ∷ b'f' ∷ []

abbrev fresh : Handler (List RpcProto)
fresh = new protocol 1000 120 5

abbrev loaded : Handler (List RpcProto)
loaded = on_behaviour_event sink fresh (send_frame note_frame)

abbrev off : Handler (List RpcProto)
off = disable fresh protocol_unsupported

abbrev sending : SimpleHandler (List RpcProto)
sending = record (Simple.new protocol 1000 120 5) {
  outbound_substream = some (waiting_output []);
  send_queue = note_frame ∷ new_rpc ∷ [];
}

Reach-no_panic_example :
    EndKeeps IsSoundHandler (poll sink loaded 6)
    × ReturnsSound (on_connection_event sink event_kinds loaded (fully_negotiated_inbound 3))
Reach-no_panic_example =
    Reach-no_panic sink event_kinds 6 (fully_negotiated_inbound 3)
      (next (start protocol 1000 120 5) (command (send_frame note_frame))) refl

disabled_stays_example :
    PollsDisabled (poll sink off 6)
    × (on_behaviour_event sink off (send_frame note_frame) ≡ off)
    × EndsDisabled (on_connection_event sink event_kinds off (fully_negotiated_outbound 3))
    × (connection_keep_alive off ≡ never)
    × (listen_protocol off ≡ denied)
disabled_stays_example =
    disabled_stays sink event_kinds off 6 (send_frame note_frame) (fully_negotiated_outbound 3) refl

on_connection_event-Accounts_example :
    Accounts loaded true false false
      (on_connection_event sink event_kinds loaded listen_upgrade_error)
on_connection_event-Accounts_example =
    on_connection_event-Accounts sink event_kinds loaded listen_upgrade_error

poll-reverse_example :
    Sends sink (λ s. s) sink_takes_all (new_rpc ∷ note_frame ∷ []) [] (Simple.poll sink sending 6)
unfolding Simple.new
poll-reverse_example = poll-reverse sink (λ s. s) sink_takes_all sending 6 [] refl refl
