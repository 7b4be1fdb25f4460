-- ===== src/Behaviour/Sending.antt =====
-- What floodsub/src/behaviour.rs hands to the connection handlers, read off the queue of events.
use rust_libp2p_pubsub.Prelude.{
  ℕ, ◌≡◌, refl, sym, ap, ◌∙◌, Bool, false, ◌||◌, ◌&&◌, List, [], ◌∷◌, ◌++◌, map, if◌then◌else◌,
  arith, append-nil, append_assoc,
}
use rust_libp2p_pubsub.Prelude.Order.{ℕ-ord, same}
use rust_libp2p_pubsub.Libp2p.{PeerId}
use rust_libp2p_pubsub.Config.{Config}
use rust_libp2p_pubsub.Collections.Vec.{contains, IsNodup}
use rust_libp2p_pubsub.Proto.{RpcProto}
use rust_libp2p_pubsub.Proto.Fragmentation.{Sizes, Result, fragment_rpc_message}
use rust_libp2p_pubsub.Proto.Fragmentation
use rust_libp2p_pubsub.Proto.Fragmentation.Content.{fragment-joined}
use rust_libp2p_pubsub.Proto.Fragmentation.Contents.{
  Contents, contents, join, joined, nothing, join-nothing, join_assoc,
}
use rust_libp2p_pubsub.Proto.Fragmentation.Errors.{is_ok}
use rust_libp2p_pubsub.Handler.Types.{send_frame, keep_alive}
use rust_libp2p_pubsub.Behaviour.{
  Behaviour, ToSwarm, Event, generate_event, notify_handler, emit_frames, emit_handler_event,
  send_rpc_frame, send_to_all,
}

-- What the commands in a queue have the handlers of one peer send, one after the other.
unfoldable pub sent_to : PeerId → List ToSwarm → Contents
sent_to q [] = nothing
sent_to q (notify_handler p (send_frame frame) ∷ events) =
    if same q p then join (contents frame) (sent_to q events) else sent_to q events
sent_to q (event ∷ events) = sent_to q events

-- What a queue tells the application.
unfoldable pub told : List ToSwarm → List Event
told [] = []
told (generate_event event ∷ events) = event ∷ told events
told (notify_handler p c ∷ events) = told events

-- Whether a queue has a frame for a peer.
unfoldable pub writes_to : PeerId → List ToSwarm → Bool
writes_to q [] = false
writes_to q (notify_handler p (send_frame frame) ∷ events) = same q p || writes_to q events
writes_to q (event ∷ events) = writes_to q events

pub writes_to-cons :
    (q : PeerId) (event : ToSwarm) (events : List ToSwarm)
    → writes_to q (event ∷ events) ≡ false
    → (writes_to q (event ∷ []) ≡ false) × (writes_to q events ≡ false)
unfolding writes_to
writes_to-cons q (generate_event m) events h = (refl, h)
writes_to-cons q (notify_handler p keep_alive) events h = (refl, h)
writes_to-cons q (notify_handler p (send_frame f)) events h = (ground arith, ground arith)

pub sent_to-append :
    (q : PeerId) (xs ys : List ToSwarm) → sent_to q (xs ++ ys) ≡ join (sent_to q xs) (sent_to q ys)
unfolding sent_to
sent_to-append q [] ys = refl
sent_to-append q (generate_event e ∷ xs) ys = sent_to-append q xs ys
sent_to-append q (notify_handler p keep_alive ∷ xs) ys = sent_to-append q xs ys
sent_to-append q (notify_handler p (send_frame f) ∷ xs) ys =
    ground (arith, sent_to-append q xs ys, join_assoc (contents f) (sent_to q xs) (sent_to q ys))

pub told-append : (xs ys : List ToSwarm) → told (xs ++ ys) ≡ told xs ++ told ys
unfolding told
told-append [] ys = refl
told-append (generate_event e ∷ xs) ys = ap (λ (k : List Event). e ∷ k) (told-append xs ys)
told-append (notify_handler p c ∷ xs) ys = told-append xs ys

-- Two states that differ in the queue of events only.
pub record SameBut (b b' : Behaviour) : Type 0 where
  pub same_config : b'.config ≡ b.config
  pub same_connections : b'.connections ≡ b.connections
  pub same_router : b'.router ≡ b.router
  pub same_generator : b'.message_seqno_generator ≡ b.message_seqno_generator
  pub same_author : b'.message_author ≡ b.message_author

abbrev pub unchanged : (b : Behaviour) → SameBut b b
unchanged b = record {
  same_config = refl;
  same_connections = refl;
  same_router = refl;
  same_generator = refl;
  same_author = refl;
}

pub chained : {a b c : Behaviour} → SameBut a b → SameBut b c → SameBut a c
chained s t = record {
  same_config = t.same_config ∙ s.same_config;
  same_connections = t.same_connections ∙ s.same_connections;
  same_router = t.same_router ∙ s.same_router;
  same_generator = t.same_generator ∙ s.same_generator;
  same_author = t.same_author ∙ s.same_author;
}

abbrev pub send_all : PeerId → List RpcProto → List ToSwarm
send_all dst frames = map (λ frame. notify_handler dst (send_frame frame)) frames

pub queue-emit_frames :
    (b : Behaviour) (dst : PeerId) (frames : List RpcProto)
    → (emit_frames b dst frames).swarm_out_events ≡ b.swarm_out_events ++ send_all dst frames
unfolding emit_frames
queue-emit_frames b dst [] = sym (append-nil b.swarm_out_events)
queue-emit_frames b dst (f ∷ fs) =
    queue-emit_frames (emit_handler_event b dst (send_frame f)) dst fs
    ∙ append_assoc b.swarm_out_events (notify_handler dst (send_frame f) ∷ []) (send_all dst fs)

emit_frames-SameBut :
    (b : Behaviour) (dst : PeerId) (frames : List RpcProto) → SameBut b (emit_frames b dst frames)
unfolding emit_frames
emit_frames-SameBut b dst [] = unchanged b
emit_frames-SameBut b dst (f ∷ fs) =
    let s = emit_frames-SameBut (emit_handler_event b dst (send_frame f)) dst fs in
    record {
      same_config = s.same_config;
      same_connections = s.same_connections;
      same_router = s.same_router;
      same_generator = s.same_generator;
      same_author = s.same_author;
    }

sent_to-send_all :
    (q dst : PeerId) (frames : List RpcProto)
    → sent_to q (send_all dst frames) ≡ (if same q dst then joined frames else nothing)
unfolding sent_to
sent_to-send_all q dst [] = ground arith
sent_to-send_all q dst (f ∷ fs) = ground (arith, sent_to-send_all q dst fs)

told-send_all : (dst : PeerId) (frames : List RpcProto) → told (send_all dst frames) ≡ []
unfolding told
told-send_all dst [] = refl
told-send_all dst (f ∷ fs) = told-send_all dst fs

module _ (s : Sizes) where
  -- Whether a frame can be sent at all: it is small enough or can be cut.
  abbrev pub can_send : ℕ → RpcProto → Bool
  can_send max_size frame = is_ok (fragment_rpc_message s max_size frame)

  -- What a peer is sent by an attempt to send a frame to another one or to it.
  abbrev pub delivery : ℕ → PeerId → PeerId → RpcProto → Contents
  delivery max_size q dst frame =
      if same q dst && can_send max_size frame then contents frame else nothing

  -- `send_rpc_frame` has the handlers of its peer send what the frame carries, or nothing if it
  -- cannot be fragmented; the handlers of other peers are sent nothing and the application is told
  -- nothing, and only the queue of events changes.
  pub send_rpc_frame_lem :
      (b : Behaviour) (q dst : PeerId) (frame : RpcProto)
      → let b' = (send_rpc_frame s b dst frame).0 in
        (sent_to q b'.swarm_out_events
          ≡ join (sent_to q b.swarm_out_events) (delivery b.config.max_frame_size q dst frame))
        × (told b'.swarm_out_events ≡ told b.swarm_out_events)
        × SameBut b b'
  unfolding send_rpc_frame
  send_rpc_frame_lem b q dst frame =
      by_result (fragment_rpc_message s b.config.max_frame_size frame) refl
    where
      by_result :
          (r : Result (List RpcProto))
          → fragment_rpc_message s b.config.max_frame_size frame ≡ r
          → let b' = (send_rpc_frame s b dst frame).0 in
            (sent_to q b'.swarm_out_events
              ≡ join (sent_to q b.swarm_out_events) (delivery b.config.max_frame_size q dst frame))
            × (told b'.swarm_out_events ≡ told b.swarm_out_events)
            × SameBut b b'
      by_result (Fragmentation.ok frames) e =
          rw (e, send_rpc_frame)
            (
              rw (queue-emit_frames b dst frames) (
                  sent_to-append q b.swarm_out_events (send_all dst frames)
                  ∙ ap (join (sent_to q b.swarm_out_events)) (
                      ground (
                        arith,
                        sent_to-send_all q dst frames,
                        fragment-joined s b.config.max_frame_size frame frames e,
                      ))),
              ap told (queue-emit_frames b dst frames)
                  ∙ told-append b.swarm_out_events (send_all dst frames)
                  ∙ ap (λ (k : List Event). told b.swarm_out_events ++ k) (told-send_all dst frames)
                  ∙ append-nil (told b.swarm_out_events),
              emit_frames-SameBut b dst frames,
            )
      by_result (Fragmentation.err x) e =
          rw (e, send_rpc_frame)
            (ground (arith, join-nothing (sent_to q b.swarm_out_events)), refl, unchanged b)

  -- The same frame to several peers, none of which stands twice: each of them is sent it, and nobody
  -- else anything.
  pub send_to_all_lem :
      (b : Behaviour) (q : PeerId) (peers : List PeerId) (frame : RpcProto)
      → IsNodup peers
      → let b' = send_to_all s b peers frame in
        (sent_to q b'.swarm_out_events
          ≡ join (sent_to q b.swarm_out_events) (
              if contains q peers && can_send b.config.max_frame_size frame
              then contents frame
              else nothing))
        × (told b'.swarm_out_events ≡ told b.swarm_out_events)
        × SameBut b b'
  unfolding send_to_all contains
  send_to_all_lem b q [] frame n =
      (sym (join-nothing (sent_to q b.swarm_out_events)), refl, unchanged b)
  send_to_all_lem b q (p ∷ ps) frame n =
      let b₁ = (send_rpc_frame s b p frame).0 in
      let (sent, quiet, same₁) = send_rpc_frame_lem b q p frame in
      let (sent', quiet', same₂) = send_to_all_lem b₁ q ps frame n.1 in
      (
        ground (
          arith,
          sent,
          sent',
          ap (λ (c : Config). c.max_frame_size) same₁.same_config,
          join-nothing (sent_to q b.swarm_out_events),
          join-nothing (join (sent_to q b.swarm_out_events) (contents frame)),
        ),
        quiet' ∙ quiet,
        chained same₁ same₂,
      )
