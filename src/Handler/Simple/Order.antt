-- ===== src/Handler/Simple/Order.antt =====
-- The order in which `SimpleHandler` of floodsub/src/handler.rs sends what is queued: its queue is
-- filled and emptied at the same end.
use mathlib.Core.List.{reverse, reverse-cons, reverse-reverse}
use rust_libp2p_pubsub.Prelude.{
  ℕ, zero, suc, ◌+◌, ◌*◌, ◌<◌, ◌≡◌, refl, sym, ap, ◌∙◌, subst, true, none, some, List, [], ◌∷◌,
  ◌++◌, length, length-append, arith, append-nil, append_assoc,
}
use rust_libp2p_pubsub.Proto.{RpcProto}
use rust_libp2p_pubsub.Handler.Types.{
  ready, Framed, waiting_output, pending_send, pending_flush, HandlerEvent,
}
use rust_libp2p_pubsub.Handler.Simple.Loop.{
  Ended, broken, again, break, run_loop, run_loop-again, run_loop-break,
}
use rust_libp2p_pubsub.Handler.Simple.{
  SimpleHandler, pop, outbound_turn, poll_loops, poll, inbound_turn,
}

pop-append {ℓ} : {A : Type ℓ} (xs : List A) (x : A) → pop (xs ++ x ∷ []) ≡ some (x, xs)
unfolding pop
pop-append [] x = refl
pop-append (y ∷ ys) x = rw (pop-append ys x)

-- A stream that takes all that it is given at once; `sent` is what it was given.
pub record TakesAll (F : Framed) (sent : F.Substream → List RpcProto) : Type 0 where
  pub is_ready : (s : F.Substream) → (F.poll_ready s).1 ≡ ready true
  pub sends : (s : F.Substream) (m : RpcProto) → (F.start_send s m).1 ≡ true
  pub flushes : (s : F.Substream) → (F.poll_flush s).1 ≡ ready true
  pub sent-ready : (s : F.Substream) → sent (F.poll_ready s).0 ≡ sent s
  pub sent-send : (s : F.Substream) (m : RpcProto) → sent (F.start_send s m).0 ≡ sent s ++ m ∷ []
  pub sent-flush : (s : F.Substream) → sent (F.poll_flush s).0 ≡ sent s

module _ (F : Framed) (sent : F.Substream → List RpcProto) (w : TakesAll F sent) where
  abbrev idle : SimpleHandler F.Substream → List RpcProto → F.Substream → SimpleHandler F.Substream
  idle h queue s = record h { outbound_substream = some (waiting_output s); send_queue = queue }

  -- The stream after one frame.
  abbrev after : F.Substream → RpcProto → F.Substream
  after s m = (F.poll_flush (F.start_send (F.poll_ready s).0 m).0).0

  take_turn :
      (h : SimpleHandler F.Substream) (now : ℕ) (s : F.Substream) (m : RpcProto)
      (ms : List RpcProto)
      → outbound_turn F now (idle h (ms ++ m ∷ []) s)
        ≡ again (record h { outbound_substream = some (pending_send s m); send_queue = ms })
  unfolding outbound_turn
  take_turn h now s m ms = rw (pop-append ms m)

  send_turn :
      (h : SimpleHandler F.Substream) (now : ℕ) (s : F.Substream) (m : RpcProto)
      (ms : List RpcProto)
      → outbound_turn F now
          (record h { outbound_substream = some (pending_send s m); send_queue = ms })
        ≡ again (record h {
          outbound_substream = some (pending_flush (F.start_send (F.poll_ready s).0 m).0);
          send_queue = ms;
        })
  unfolding outbound_turn
  send_turn h now s m ms = rw (w.is_ready s, w.sends (F.poll_ready s).0 m)

  flush_turn :
      (h : SimpleHandler F.Substream) (now : ℕ) (s : F.Substream) (ms : List RpcProto)
      → outbound_turn F now
          (record h { outbound_substream = some (pending_flush s); send_queue = ms })
        ≡ again (record (idle h ms (F.poll_flush s).0) { last_io_activity = now })
  unfolding outbound_turn
  flush_turn h now s ms = rw (w.flushes s)

  three_turns :
      (h : SimpleHandler F.Substream) (now f : ℕ) (s : F.Substream) (m : RpcProto)
      (ms : List RpcProto)
      → run_loop (outbound_turn F now) (suc (suc (suc f))) (idle h (ms ++ m ∷ []) s)
        ≡ run_loop
            (outbound_turn F now)
            f
            (record (idle h ms (after s m)) { last_io_activity = now })
  three_turns h now f s m ms =
      run_loop-again (outbound_turn F now) (suc (suc f)) (take_turn h now s m ms)
      ∙ run_loop-again (outbound_turn F now) (suc f) (send_turn h now s m ms)
      ∙ run_loop-again (outbound_turn F now) f
          (flush_turn h now (F.start_send (F.poll_ready s).0 m).0 ms)

  sent-after : (s : F.Substream) (m : RpcProto) → sent (after s m) ≡ sent s ++ m ∷ []
  sent-after s m =
      w.sent-flush (F.start_send (F.poll_ready s).0 m).0
      ∙ w.sent-send (F.poll_ready s).0 m
      ∙ ap (λ (l : List RpcProto). l ++ m ∷ []) (w.sent-ready s)

  last_turn :
      (h : SimpleHandler F.Substream) (now f : ℕ) (s : F.Substream)
      → run_loop (outbound_turn F now) (suc f) (idle h [] s) ≡ broken (idle h [] s)
  last_turn h now f s = run_loop-break (outbound_turn F now) f (unfold outbound_turn in refl)

  -- What the loop comes to: nothing is queued, and the stream was given some frames.
  abbrev pub Sends :
      List RpcProto → F.Substream → Ended (SimpleHandler F.Substream) HandlerEvent → Type 0
  Sends ms s r =
      (h' : SimpleHandler F.Substream) × (s' : F.Substream) × (r ≡ broken h')
      × (h'.send_queue ≡ [])
      × (h'.outbound_substream ≡ some (waiting_output s'))
      × (sent s' ≡ sent s ++ ms)

  all-Sends :
      (ms : List RpcProto) (h : SimpleHandler F.Substream) (now f : ℕ) (s : F.Substream)
      → 3 * length ms < f
      → Sends ms s (run_loop (outbound_turn F now) f (idle h (reverse ms) s))
  all-Sends [] h now zero s l = absurd (omega arith)
  all-Sends [] h now (suc f) s l =
      (idle h [] s, s, last_turn h now f s, refl, refl, sym (append-nil (sent s)))
  all-Sends (m ∷ ms) h now (suc (suc (suc f))) s l =
      let h₁ : SimpleHandler F.Substream = record h { last_io_activity = now } in
      let (h', s', e, q, o, t) = all-Sends ms h₁ now f (after s m) (omega arith) in
      (
        h',
        s',
        ap (λ (k : List RpcProto). run_loop (outbound_turn F now) (suc (suc (suc f))) (idle h k s))
              (reverse-cons m ms)
            ∙ three_turns h now f s m (reverse ms)
            ∙ e,
        q,
        o,
        t
            ∙ ap (λ (k : List RpcProto). k ++ ms) (sent-after s m)
            ∙ append_assoc (sent s) (m ∷ []) ms,
      )
  all-Sends (m ∷ ms) h now f s l = absurd (omega arith)

  length-reverse : (ms : List RpcProto) → length (reverse ms) ≡ length ms
  length-reverse [] = refl
  length-reverse (m ∷ ms) =
      omega (
        arith,
        ap length (reverse-cons m ms),
        length-append (reverse ms) (m ∷ []),
        length-reverse ms,
      )

  inbound_break :
      (h : SimpleHandler F.Substream) (now : ℕ)
      → h.inbound_substream ≡ none
      → inbound_turn F now h ≡ break (record h { inbound_substream = none })
  unfolding inbound_turn
  inbound_break h now i = ground arith

  poll-outbound :
      (h : SimpleHandler F.Substream) (now : ℕ) (s : F.Substream)
      → h.inbound_substream ≡ none
      → h.outbound_substream ≡ some (waiting_output s)
      → poll F h now
        ≡ run_loop
            (outbound_turn F now)
            (3 * length h.send_queue + 4)
            (record h { inbound_substream = none })
  unfolding poll poll_loops
  poll-outbound h now s i o =
      let quiet = run_loop-break (inbound_turn F now) 2 (inbound_break h now i) in
      ground (arith, quiet)

  -- With no inbound substream, an idle outbound one and a stream that takes all that it is given,
  -- a poll sends the whole queue, in the reverse of the order in which the frames were queued, and
  -- ends.
  pub poll-reverse :
      (h : SimpleHandler F.Substream) (now : ℕ) (s : F.Substream)
      → h.inbound_substream ≡ none
      → h.outbound_substream ≡ some (waiting_output s)
      → Sends (reverse h.send_queue) s (poll F h now)
  poll-reverse h now s i o =
      let q = h.send_queue in
      let h₀ : SimpleHandler F.Substream = record h { inbound_substream = none } in
      let queued : h₀ ≡ idle h₀ (reverse (reverse q)) s =
        λ j. record h₀ { outbound_substream = o j; send_queue = sym (reverse-reverse q) j } in
      subst (Sends (reverse q) s)
        (sym (
          poll-outbound h now s i o
          ∙ ap (run_loop (outbound_turn F now) (3 * length q + 4)) queued))
        (all-Sends (reverse q) h₀ now (3 * length q + 4) s (omega (arith, length-reverse q)))
