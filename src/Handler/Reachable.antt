-- ===== src/Handler/Reachable.antt =====
-- The states that the handler of floodsub/src/handler.rs can get into, driven by libp2p: an outbound
-- substream is negotiated only after it was requested, and an inbound one is denied only by a
-- disabled handler.
use rust_libp2p_pubsub.Prelude.{ℕ, ◌≡◌, true, subst}
use rust_libp2p_pubsub.Prelude.Order.{Bytes}
use rust_libp2p_pubsub.Prelude.Outcome.{returned}
use rust_libp2p_pubsub.Handler.Types.{Command, Framed, HandlerEvent, ConnectionEvent, EventKinds}
use rust_libp2p_pubsub.Handler.Simple.Safety.{new-IsSound}
use rust_libp2p_pubsub.Handler.Simple.Loop.{broken, emitted, EndKeeps}
use rust_libp2p_pubsub.Handler.{Handler, new, poll, on_behaviour_event, on_connection_event}
use rust_libp2p_pubsub.Handler.Soundness.{
  may_report, IsSoundHandler, ReturnsSound, poll-IsSoundHandler, on_behaviour_event-IsSoundHandler,
  on_connection_event-ReturnsSound,
}

module _ (F : Framed) (kinds : EventKinds F.Socket) where
  pub data Step (h : Handler F.Substream) : Handler F.Substream → Type 0 where
    command : (c : Command) → Step h (on_behaviour_event F h c)
    idle : {h' : Handler F.Substream} (now : ℕ) → poll F h now ≡ broken h' → Step h h'
    emits :
        {h' : Handler F.Substream} (now : ℕ) (e : HandlerEvent)
        → poll F h now ≡ emitted h' e
        → Step h h'
    report :
        {h' : Handler F.Substream} (e : ConnectionEvent F.Socket)
        → may_report h.inner e ≡ true
        → on_connection_event F kinds h e ≡ returned h'
        → Step h h'

  pub data Reach : Handler F.Substream → Type 0 where
    start : (protocol_id : Bytes) (size timeout now : ℕ) → Reach (new protocol_id size timeout now)
    next : {h h' : Handler F.Substream} → Reach h → Step h h' → Reach h'

  Step-IsSoundHandler :
      {h h' : Handler F.Substream} → Step h h' → IsSoundHandler h → IsSoundHandler h'
  Step-IsSoundHandler {h} (command c) v = on_behaviour_event-IsSoundHandler F kinds h c v
  Step-IsSoundHandler {h} (idle now e) v =
      subst (EndKeeps IsSoundHandler) e (poll-IsSoundHandler F kinds h now v)
  Step-IsSoundHandler {h} (emits now x e) v =
      subst (EndKeeps IsSoundHandler) e (poll-IsSoundHandler F kinds h now v)
  Step-IsSoundHandler {h} (report x m e) v =
      subst ReturnsSound e (on_connection_event-ReturnsSound F kinds h x v m)

  Reach-IsSoundHandler : {h : Handler F.Substream} → Reach h → IsSoundHandler h
  Reach-IsSoundHandler (start protocol_id size timeout now) =
      unfold new in new-IsSound protocol_id size timeout now
  Reach-IsSoundHandler (next r s) = Step-IsSoundHandler s (Reach-IsSoundHandler r)

  -- In every reachable state a poll ends, with an event or pending, whatever the streams answer,
  -- and an event that libp2p may report is handled: no `unreachable!` and no assertion is met. The
  -- state after either is sound: no substream is poisoned, and no outbound one is there while one
  -- is being established.
  pub Reach-no_panic :
      {h : Handler F.Substream} (now : ℕ) (e : ConnectionEvent F.Socket)
      → Reach h
      → may_report h.inner e ≡ true
      → EndKeeps IsSoundHandler (poll F h now) × ReturnsSound (on_connection_event F kinds h e)
  Reach-no_panic {h} now e r m =
      let v = Reach-IsSoundHandler r in
      (poll-IsSoundHandler F kinds h now v, on_connection_event-ReturnsSound F kinds h e v m)
