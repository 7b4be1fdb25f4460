-- ===== src/Handler/Simple.antt =====
-- `SimpleHandler` of floodsub/src/handler.rs: one inbound and one outbound substream, and the queue
-- of frames to send. The clock's reading is an argument of `poll`.
pub mod Loop
pub mod Safety
pub mod Order
use rust_libp2p_pubsub.Prelude.{
  ℕ, zero, suc, ◌+◌, ◌*◌, Bool, true, false, not, ◌&&◌, Option, none, some, List, [], ◌∷◌, ◌++◌,
  length, is_empty, if◌then◌else◌,
}
use rust_libp2p_pubsub.Prelude.Order.{Bytes}
use rust_libp2p_pubsub.Prelude.Outcome.{Outcome, returned, panicked, ◌>>=◌}
use rust_libp2p_pubsub.Proto.{RpcProto}
use rust_libp2p_pubsub.Handler.Types.{
  Command, send_frame, keep_alive, frame_received, Poll, ready, pending, Received, frame, failed,
  closed, Framed, InboundSubstreamState, waiting_input, closing, OutboundSubstreamState,
  waiting_output, pending_send, pending_flush, HandlerEvent, outbound_substream_request,
  notify_behaviour, ConnectionEvent, fully_negotiated_inbound, fully_negotiated_outbound,
  denied_inbound, EventKinds, KeepAlive, always, until, ListenProtocol, upgrade,
}
use Loop.{Turn, again, break, return, panic, Ended, run_loop}

pub record SimpleHandler (S : Type 0) : Type 0 where
  pub protocol : Bytes  -- of `upgrade`
  pub max_frame_size : ℕ
  pub outbound_substream : Option (OutboundSubstreamState S)
  pub inbound_substream : Option (InboundSubstreamState S)
  pub send_queue : List RpcProto
  pub outbound_substream_establishing : Bool
  pub last_io_activity : ℕ
  pub idle_timeout : ℕ
  pub keep_alive : Bool

unfoldable pub new : {S : Type 0} → Bytes → ℕ → ℕ → ℕ → SimpleHandler S
new protocol max_frame_size idle_timeout now = record {
  protocol = protocol;
  max_frame_size = max_frame_size;
  outbound_substream = none;
  inbound_substream = none;
  send_queue = [];
  outbound_substream_establishing = false;
  last_io_activity = now;
  idle_timeout = idle_timeout;
  keep_alive = false;
}

abbrev pub listen_protocol : {S : Type 0} → SimpleHandler S → ListenProtocol
listen_protocol h = upgrade h.protocol

-- `Some(PendingSend(..) | PendingFlush(..))`
abbrev is_sending : {S : Type 0} → Option (OutboundSubstreamState S) → Bool
is_sending (some (pending_send s message)) = true
is_sending (some (pending_flush s)) = true
is_sending _ = false

unfoldable pub connection_keep_alive : {S : Type 0} → SimpleHandler S → KeepAlive
connection_keep_alive h =
    if h.keep_alive
    then always
    else if is_sending h.outbound_substream
    then always
    else until (h.last_io_activity + h.idle_timeout)

-- `SmallVec::pop`: the last element, and the others.
unfoldable pub pop {ℓ} : {A : Type ℓ} → List A → Option (A × List A)
pop [] = none
pop (x ∷ xs) = elim (pop xs) [ none ↦ some (x, []) | some (y, ys) ↦ some (y, x ∷ ys) ]

abbrev pub is_nothing {ℓ} : {A : Type ℓ} → Option A → Bool
is_nothing none = true
is_nothing (some a) = false

module _ (F : Framed) where
  open F use {Socket, Substream, poll_next, poll_close, poll_ready, start_send, poll_flush}

  abbrev pub Handler : Type 0
  Handler = SimpleHandler Substream

  abbrev set_inbound : Handler → Option (InboundSubstreamState Substream) → Handler
  set_inbound h i = record h { inbound_substream = i }

  abbrev set_outbound : Handler → Option (OutboundSubstreamState Substream) → Handler
  set_outbound h o = record h { outbound_substream = o }

  -- The match on what `poll_next_unpin` gives.
  unfoldable on_received : Handler → ℕ → Substream → Poll Received → Turn Handler HandlerEvent
  on_received h now s (ready (frame message)) =
      return (record h { last_io_activity = now; inbound_substream = some (waiting_input s) })
        (notify_behaviour (frame_received message))
  on_received h now s (ready failed) = again (set_inbound h (some (closing s)))
  on_received h now s (ready closed) = again (set_inbound h (some (closing s)))
  on_received h now s pending = break (set_inbound h (some (waiting_input s)))

  unfoldable on_closing : Handler → Substream → Poll Bool → Turn Handler HandlerEvent
  on_closing h s (ready result) = break (set_inbound h none)
  on_closing h s pending = break (set_inbound h (some (closing s)))

  -- One turn of the inbound loop.
  unfoldable pub inbound_turn : ℕ → Handler → Turn Handler HandlerEvent
  unfolding on_received on_closing
  inbound_turn now h = elim h.inbound_substream [
    | none ↦ break (set_inbound h none)
    | some (waiting_input s) ↦ on_received h now (poll_next s).0 (poll_next s).1
    | some (closing s) ↦ on_closing h (poll_close s).0 (poll_close s).1
    | some InboundSubstreamState.poisoned ↦ panic
  ]

  unfoldable on_waiting_output :
      Handler → Substream → Option (RpcProto × List RpcProto) → Turn Handler HandlerEvent
  on_waiting_output h s (some (message, rest)) =
      again (record h { send_queue = rest; outbound_substream = some (pending_send s message) })
  on_waiting_output h s none = break (set_outbound h (some (waiting_output s)))

  unfoldable on_sent : Handler → Substream × Bool → Turn Handler HandlerEvent
  on_sent h (s, true) = again (set_outbound h (some (pending_flush s)))
  on_sent h (s, false) = break (set_outbound h none)

  unfoldable on_ready : Handler → Substream → RpcProto → Poll Bool → Turn Handler HandlerEvent
  unfolding on_sent
  on_ready h s message (ready true) = on_sent h (start_send s message)
  on_ready h s message (ready false) = break (set_outbound h none)
  on_ready h s message pending = break (set_outbound h (some (pending_send s message)))

  unfoldable on_flushed : Handler → ℕ → Substream → Poll Bool → Turn Handler HandlerEvent
  on_flushed h now s (ready true) =
      again (record h { last_io_activity = now; outbound_substream = some (waiting_output s) })
  on_flushed h now s (ready false) = break (set_outbound h none)
  on_flushed h now s pending = break (set_outbound h (some (pending_flush s)))

  -- One turn of the outbound loop.
  unfoldable pub outbound_turn : ℕ → Handler → Turn Handler HandlerEvent
  unfolding on_waiting_output on_ready on_flushed pop
  outbound_turn now h = elim h.outbound_substream [
    | none ↦ break (set_outbound h none)
    | some (waiting_output s) ↦ on_waiting_output h s (pop h.send_queue)
    | some (pending_send s message) ↦ on_ready h (poll_ready s).0 message (poll_ready s).1
    | some (pending_flush s) ↦ on_flushed h now (poll_flush s).0 (poll_flush s).1
    | some OutboundSubstreamState.poisoned ↦ panic
  ]

  -- The rounds that the outbound loop can take: three for each frame, and those of the last.
  abbrev pub outbound_fuel : Handler → ℕ
  outbound_fuel h = 3 * length h.send_queue + 4

  -- `poll` after the test for a new outbound substream: the two loops.
  unfoldable pub poll_loops : Handler → ℕ → Ended Handler HandlerEvent
  unfolding inbound_turn outbound_turn run_loop
  poll_loops h now = elim (run_loop (inbound_turn now) 3 h) [
    | Ended.broken h' ↦ run_loop (outbound_turn now) (outbound_fuel h') h'
    | Ended.emitted h' event ↦ Ended.emitted h' event
    | Ended.panicked ↦ Ended.panicked
    | Ended.out_of_fuel ↦ Ended.out_of_fuel
  ]

  -- `poll`: a request, an event, or (`broken`) `Poll::Pending`.
  unfoldable pub poll : Handler → ℕ → Ended Handler HandlerEvent
  unfolding poll_loops
  poll h now =
      if not (is_empty h.send_queue)
        && is_nothing h.outbound_substream
        && not h.outbound_substream_establishing
      then Ended.emitted (record h { outbound_substream_establishing = true })
          (outbound_substream_request h.protocol)
      else poll_loops h now

  unfoldable pub on_behaviour_event : Handler → Command → Handler
  on_behaviour_event h (send_frame message) = record h { send_queue = h.send_queue ++ message ∷ [] }
  on_behaviour_event h Command.keep_alive = record h { keep_alive = true }

  unfoldable on_fully_negotiated_inbound : Handler → Socket → Handler
  on_fully_negotiated_inbound h socket =
      set_inbound h (some (waiting_input (F.new socket h.max_frame_size)))

  -- `assert!(self.outbound_substream.is_none())`
  unfoldable on_fully_negotiated_outbound : Handler → Socket → Outcome Handler
  on_fully_negotiated_outbound h socket =
      if is_nothing h.outbound_substream
      then returned (set_outbound h (some (waiting_output (F.new socket h.max_frame_size))))
      else panicked

  unfoldable dispatch : Handler → ConnectionEvent Socket → Outcome Handler
  unfolding on_fully_negotiated_inbound on_fully_negotiated_outbound
  dispatch h (fully_negotiated_inbound socket) = returned (on_fully_negotiated_inbound h socket)
  dispatch h denied_inbound = panicked
  dispatch h (fully_negotiated_outbound socket) = on_fully_negotiated_outbound h socket
  dispatch h _ = returned h

  unfoldable pub on_connection_event :
      EventKinds Socket → Handler → ConnectionEvent Socket → Outcome Handler
  unfolding dispatch
  on_connection_event kinds h event =
      dispatch
        (if kinds.is_outbound event
          then record h { outbound_substream_establishing = false }
          else h)
        event
