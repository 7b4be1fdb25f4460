-- ===== src/Behaviour/Grouping.antt =====
-- How floodsub/src/behaviour.rs groups the messages that it forwards by the peers that they go on to.
use rust_libp2p_pubsub.Prelude.{
  ◌≡◌, refl, sym, not, ◌&&◌, List, [], ◌∷◌, ◌++◌, map, if◌then◌else◌, arith, append-nil,
  append_assoc,
}
use rust_libp2p_pubsub.Prelude.Order.{ℕ-ord, same}
use rust_libp2p_pubsub.Libp2p.{PeerId}
use rust_libp2p_pubsub.Collections.Vec.{contains, push, IsNodup}
use rust_libp2p_pubsub.Collections.BTreeSet
use rust_libp2p_pubsub.Collections.HashMap
use rust_libp2p_pubsub.Collections.VecMap.{VecMap, values, add, values-add}
use rust_libp2p_pubsub.Router
use rust_libp2p_pubsub.Router.{Router, propagation_routes}
use rust_libp2p_pubsub.Router.Invariant.{IsCoherent}
use rust_libp2p_pubsub.Router.Refinement.{propagation_routes-IsAscending}
use rust_libp2p_pubsub.Frame.Message
use rust_libp2p_pubsub.Frame.Message.{Message}
use rust_libp2p_pubsub.Behaviour.{Event, message}
use rust_libp2p_pubsub.Behaviour.Incoming.{
  filter_subscribed, next_hops, push_to_all, group_messages,
}

-- The messages that go on to a peer: those of subscribed topics whose routes it is on, unless it is
-- the one that they came from.
unfoldable pub wanted : Router → PeerId → PeerId → List Message → List Message
wanted r src q [] = []
wanted r src q (m ∷ ms) =
    if Router.is_subscribed r (Message.topic m)
      && (BTreeSet.contains q (propagation_routes r (Message.topic m)) && not (same q src))
    then m ∷ wanted r src q ms
    else wanted r src q ms

-- What the application is told of the messages.
abbrev pub notices : PeerId → List Message → List Event
notices src ms = map (λ m. message src (Message.topic m) m) ms

contains-next_hops :
    (src q : PeerId) (ps : List PeerId)
    → contains q (next_hops src ps) ≡ (contains q ps && not (same q src))
unfolding contains next_hops
contains-next_hops src q [] = refl
contains-next_hops src q (p ∷ ps) = ground (arith, contains-next_hops src q ps)

next_hops-IsNodup : (src : PeerId) (ps : List PeerId) → IsNodup ps → IsNodup (next_hops src ps)
unfolding next_hops
next_hops-IsNodup src [] n = tt
next_hops-IsNodup src (p ∷ ps) n =
    ground (arith, next_hops-IsNodup src ps, contains-next_hops src p ps)

values-push_to_all :
    (q : PeerId) (peers : List PeerId) (m : Message) (mmap : VecMap PeerId Message)
    → IsNodup peers
    → values q (push_to_all peers m mmap)
      ≡ (if contains q peers then push (values q mmap) m else values q mmap)
unfolding push_to_all contains
values-push_to_all q [] m mmap n = refl
values-push_to_all q (p ∷ ps) m mmap n =
    ground (arith, values-push_to_all q ps m (add p m mmap) n.1, values-add q p m mmap)

push_to_all-IsNodup :
    (peers : List PeerId) (m : Message) (mmap : VecMap PeerId Message)
    → IsNodup (HashMap.keys mmap)
    → IsNodup (HashMap.keys (push_to_all peers m mmap))
unfolding push_to_all add
push_to_all-IsNodup [] m mmap n = n
push_to_all-IsNodup (p ∷ ps) m mmap n =
    push_to_all-IsNodup ps m (add p m mmap)
      (HashMap.insert-IsNodup p (push (values p mmap) m) mmap n)

pub group_messages-IsNodup :
    (r : Router) (src : PeerId) (ms : List Message) (mmap : VecMap PeerId Message)
    → IsNodup (HashMap.keys mmap)
    → IsNodup (HashMap.keys (group_messages r src ms mmap))
unfolding group_messages
group_messages-IsNodup r src [] mmap n = n
group_messages-IsNodup r src (m ∷ ms) mmap n =
    let hops = next_hops src (propagation_routes r (Message.topic m)) in
    group_messages-IsNodup r src ms (push_to_all hops m mmap) (push_to_all-IsNodup hops m mmap n)

-- The groups hold, for each peer, the messages that go on to it.
pub values-group_messages :
    (r : Router) (src q : PeerId) (ms : List Message) (mmap : VecMap PeerId Message)
    → IsCoherent r
    → values q (group_messages r src (filter_subscribed r ms) mmap)
      ≡ values q mmap ++ wanted r src q ms
unfolding group_messages filter_subscribed wanted
values-group_messages r src q [] mmap c = sym (append-nil (values q mmap))
values-group_messages r src q (m ∷ ms) mmap c =
    let routes = propagation_routes r (Message.topic m) in
    let ascending = propagation_routes-IsAscending r (Message.topic m) c in
    let hops = next_hops src routes in
    ground (
      arith,
      values-group_messages r src q ms mmap c,
      values-group_messages r src q ms (push_to_all hops m mmap) c,
      values-push_to_all q hops m mmap
          (next_hops-IsNodup src routes (BTreeSet.ascending-IsNodup routes ascending)),
      contains-next_hops src q routes,
      BTreeSet.contains-vec q routes,
      append_assoc (values q mmap) (m ∷ []) (wanted r src q ms),
    )
