-- ===== src/Network/Agreement.antt =====
-- What each node of floodsub/src/behaviour.rs knows of the subscriptions of the others.
use rust_libp2p_pubsub.Prelude.{
  ℕ, ◌≡◌, ◌≢◌, refl, sym, ap, ◌∙◌, subst, Bool, false, ◌&&◌, List, ◌++◌, is_empty, arith, ltb,
  if◌then◌else◌, append_assoc, if_pos, if_neg, ℕ_discrete,
}
use rust_libp2p_pubsub.Prelude.Order.{ℕ-ord, same}
use rust_libp2p_pubsub.Libp2p.{PeerId}
use rust_libp2p_pubsub.Topic.{TopicHash, TopicHash-ord}
use rust_libp2p_pubsub.Collections.BTreeSet
use rust_libp2p_pubsub.Connections.Manager.Counts.{Reach}
use rust_libp2p_pubsub.Router
use rust_libp2p_pubsub.Router.{Router, propagation_routes}
use rust_libp2p_pubsub.Router.Invariant.{IsCoherent}
use rust_libp2p_pubsub.Proto.{SubOptsProto, RpcProto}
use rust_libp2p_pubsub.Proto.Fragmentation.Contents.{joined}
use rust_libp2p_pubsub.Behaviour.{Behaviour}
use rust_libp2p_pubsub.Behaviour.Sending.{sent_to}
use rust_libp2p_pubsub.Behaviour.Entries.{last_word}
use rust_libp2p_pubsub.Network.{Net, update, set_node}
use rust_libp2p_pubsub.Network.Words.{last_word-append}

-- The subscriptions in the frames that a node has queued for a peer.
abbrev pub queued : PeerId → Behaviour → List SubOptsProto
queued q b = (sent_to q b.swarm_out_events).subscriptions

abbrev pub wired : List RpcProto → List SubOptsProto
wired frames = (joined frames).subscriptions

abbrev pub on_routes : Behaviour → PeerId → TopicHash → Bool
on_routes b p t = BTreeSet.contains p (propagation_routes b.router t)

-- What a node will hold of another's subscription to a topic when it has handled all that the
-- other has sent or queued for it.
abbrev pub word : Net → PeerId → PeerId → TopicHash → Bool
word net p q t =
    last_word (wired (net.wires p q) ++ queued q (net.nodes p)) t (on_routes (net.nodes q) p t)

-- The truth of it.
abbrev pub truth : Net → PeerId → PeerId → TopicHash → Bool
truth net p q t = ltb 0 (net.links p q) && Router.is_subscribed (net.nodes p).router t

-- Each node's tables agree, its connections are those that its swarm counts, and what is under way
-- from it to each other node ends with the truth.
pub record Agrees (net : Net) : Type 0 where
  pub coherent : (p : PeerId) → IsCoherent (net.nodes p).router
  pub counted : (p : PeerId) → Reach (net.nodes p).connections (net.links p)
  pub says :
      (p q : PeerId) (t : TopicHash) → is_empty t.hash ≡ false → word net p q t ≡ truth net p q t

pub update-at {ℓ} : {A : Type ℓ} (p : PeerId) (a : A) (f : PeerId → A) → update p a f p ≡ a
update-at p a f = if_pos (ℕ_discrete p p) refl a (f p)

pub update-off {ℓ} :
    {A : Type ℓ} (p : PeerId) (a : A) (f : PeerId → A) (x : PeerId) → x ≢ p → update p a f x ≡ f x
update-off p a f x n = if_neg (ℕ_discrete x p) n a (f x)

-- A property of every node, after one of them is replaced.
pub by_node {ℓ} :
    (P : PeerId → Type ℓ) (p : PeerId) → P p → ((x : PeerId) → x ≢ p → P x) → (x : PeerId) → P x
by_node P p h k x = elim (ℕ_discrete x p) [ yes e ↦ subst P (sym e) h | no n ↦ k x n ]

pub update-same {ℓ κ} :
    {A : Type ℓ} {B : Type κ} (g : A → B) (p x : PeerId) (a : A) (f : PeerId → A)
    → g a ≡ g (f p)
    → g (update p a f x) ≡ g (f x)
update-same g p x a f e = ground (arith, e)

module _ (p q : PeerId) (frames : List RpcProto) (wires : PeerId → PeerId → List RpcProto) where
  abbrev pub rewired : PeerId → PeerId → List RpcProto
  rewired = update p (update q frames (wires p)) wires

  pub rewired-at : rewired p q ≡ frames
  rewired-at = rw (update-at p (update q frames (wires p)) wires) (update-at q frames (wires p))

  pub rewired-off_source : (x y : PeerId) → x ≢ p → rewired x y ≡ wires x y
  rewired-off_source x y d = rw (update-off p (update q frames (wires p)) wires x d) refl

  pub rewired-off_target : (x y : PeerId) → y ≢ q → rewired x y ≡ wires x y
  rewired-off_target x y d =
      by_node (λ z. rewired z y ≡ wires z y) p
        (rw (update-at p (update q frames (wires p)) wires) (update-off q frames (wires p) y d))
        (λ z c. rewired-off_source z y c) x

  pub rewired_lem :
      (x y : PeerId) → rewired x y ≡ (if same x p && same y q then frames else wires x y)
  rewired_lem x y =
      by_node (λ z. rewired z y ≡ (if same z p && same y q then frames else wires z y)) p
        (rw (update-at p (update q frames (wires p)) wires) (ground arith))
        (λ z d. rewired-off_source z y d ∙ ground (arith, d)) x

last_word-extra :
    (xs ys zs : List SubOptsProto) (t : TopicHash) (b : Bool)
    → last_word (xs ++ (ys ++ zs)) t b ≡ last_word zs t (last_word (xs ++ ys) t b)
last_word-extra xs ys zs t b =
    ap (λ (k : List SubOptsProto). last_word k t b) (sym (append_assoc xs ys zs))
    ∙ last_word-append (xs ++ ys) zs t b

-- What an operation of a node, which leaves its routes as they were, may change: what it has queued
-- ends with the truth if it did before.
pub record Honest (b b' : Behaviour) (n n' : PeerId → ℕ) : Type 0 where
  pub still_coherent : IsCoherent b'.router
  pub still_counted : Reach b'.connections n'
  pub same_routes : (q : PeerId) (t : TopicHash) → on_routes b' q t ≡ on_routes b q t
  pub tells :
      (q : PeerId) (t : TopicHash)
      → is_empty t.hash ≡ false
      → (extra : List SubOptsProto) × (queued q b' ≡ queued q b ++ extra)
        × (last_word extra t (ltb 0 (n q) && Router.is_subscribed b.router t)
            ≡ (ltb 0 (n' q) && Router.is_subscribed b'.router t))

abbrev pub replaced : Net → PeerId → Behaviour → (PeerId → ℕ) → Net
replaced net p b n = record (set_node net p b) { links = update p n net.links }

pub replaced-Agrees :
    (net : Net) (p : PeerId) (b : Behaviour) (n : PeerId → ℕ)
    → Agrees net
    → Honest (net.nodes p) b (net.links p) n
    → Agrees (replaced net p b n)
replaced-Agrees net p b n h k = record {
  coherent =
      by_node (λ x. IsCoherent (update p b net.nodes x).router) p
        (rw (update-at p b net.nodes) k.still_coherent)
        (λ x d. rw (update-off p b net.nodes x d) (h.coherent x));
  counted =
      by_node (λ x. Reach (update p b net.nodes x).connections (update p n net.links x)) p
        (rw (update-at p b net.nodes, update-at p n net.links) k.still_counted)
        (λ x d. rw (update-off p b net.nodes x d, update-off p n net.links x d) (h.counted x));
  says = λ x y t e.
      by_node (λ z. word (replaced net p b n) z y t ≡ truth (replaced net p b n) z y t) p
        (let (extra, grows, ends) = k.tells y t e in
          let same : on_routes (update p b net.nodes y) p t ≡ on_routes (net.nodes y) p t =
            update-same (λ (a : Behaviour). on_routes a p t) p y b net.nodes (k.same_routes p t) in
          rw (update-at p b net.nodes, update-at p n net.links)
            (rw (same, grows)
              (last_word-extra (wired (net.wires p y)) (queued y (net.nodes p)) extra t
                  (on_routes (net.nodes y) p t)
                ∙ ap (last_word extra t) (h.says p y t e)
                ∙ ends)))
        (λ z d.
          let same : on_routes (update p b net.nodes y) z t ≡ on_routes (net.nodes y) z t =
            update-same (λ (a : Behaviour). on_routes a z t) p y b net.nodes (k.same_routes z t) in
          rw (update-off p b net.nodes z d, update-off p n net.links z d)
            (rw same (h.says z y t e)))
        x;
}
