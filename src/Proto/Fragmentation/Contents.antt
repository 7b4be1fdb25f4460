-- ===== src/Proto/Fragmentation/Contents.antt =====
-- What the frames of floodsub/src/proto/fragmentation.rs carry.
use rust_libp2p_pubsub.Prelude.{
  ◌≡◌, refl, sym, ap, ◌∙◌, List, [], ◌∷◌, ◌++◌, append-nil, append_assoc,
}
use rust_libp2p_pubsub.Proto.{
  MessageProto, SubOptsProto, ControlItem, ControlMessageProto, RpcProto,
}
use rust_libp2p_pubsub.Proto.Fragmentation.{
  RpcList, to_list, get_or_empty, push_publish, push_subscription, on_last,
}

-- What a frame carries.
pub record Contents : Type 0 where
  pub subscriptions : List SubOptsProto
  pub publish : List MessageProto
  pub ihave : List ControlItem
  pub iwant : List ControlItem
  pub graft : List ControlItem
  pub prune : List ControlItem

abbrev pub nothing : Contents
nothing = record {
  subscriptions = [];
  publish = [];
  ihave = [];
  iwant = [];
  graft = [];
  prune = [];
}

abbrev pub contents : RpcProto → Contents
contents rpc = record {
  subscriptions = rpc.subscriptions;
  publish = rpc.publish;
  ihave = (get_or_empty rpc.control).ihave;
  iwant = (get_or_empty rpc.control).iwant;
  graft = (get_or_empty rpc.control).graft;
  prune = (get_or_empty rpc.control).prune;
}

abbrev pub join : Contents → Contents → Contents
join a b = record {
  subscriptions = a.subscriptions ++ b.subscriptions;
  publish = a.publish ++ b.publish;
  ihave = a.ihave ++ b.ihave;
  iwant = a.iwant ++ b.iwant;
  graft = a.graft ++ b.graft;
  prune = a.prune ++ b.prune;
}

-- What several frames carry, one after the other.
abbrev pub joined : List RpcProto → Contents
joined [] = nothing
joined (rpc ∷ rpcs) = join (contents rpc) (joined rpcs)

pub join-nothing : (a : Contents) → join a nothing ≡ a
join-nothing a = λ i. record {
  subscriptions = append-nil a.subscriptions i;
  publish = append-nil a.publish i;
  ihave = append-nil a.ihave i;
  iwant = append-nil a.iwant i;
  graft = append-nil a.graft i;
  prune = append-nil a.prune i;
}

pub join_assoc : (a b c : Contents) → join (join a b) c ≡ join a (join b c)
join_assoc a b c = λ i. record {
  subscriptions = append_assoc a.subscriptions b.subscriptions c.subscriptions i;
  publish = append_assoc a.publish b.publish c.publish i;
  ihave = append_assoc a.ihave b.ihave c.ihave i;
  iwant = append_assoc a.iwant b.iwant c.iwant i;
  graft = append_assoc a.graft b.graft c.graft i;
  prune = append_assoc a.prune b.prune c.prune i;
}

pub joined-append : (xs ys : List RpcProto) → joined (xs ++ ys) ≡ join (joined xs) (joined ys)
joined-append [] ys = refl
joined-append (x ∷ xs) ys =
    ap (join (contents x)) (joined-append xs ys)
    ∙ sym (join_assoc (contents x) (joined xs) (joined ys))

abbrev pub total : RpcList → Contents
total l = join (joined l.front) (contents l.last)

pub total-to_list : (l : RpcList) → joined (to_list l) ≡ total l
total-to_list l =
    joined-append l.front (l.last ∷ [])
    ∙ ap (join (joined l.front)) (join-nothing (contents l.last))

-- A change to the last frame that adds to what it carries.
pub total-on_last :
    (g : RpcProto → RpcProto) (extra : Contents) (l : RpcList)
    → contents (g l.last) ≡ join (contents l.last) extra
    → total (on_last g l) ≡ join (total l) extra
total-on_last g extra l e =
    ap (join (joined l.front)) e ∙ sym (join_assoc (joined l.front) (contents l.last) extra)

abbrev pub messages_only : List MessageProto → Contents
messages_only ms = record nothing { publish = ms }

abbrev pub subscriptions_only : List SubOptsProto → Contents
subscriptions_only ss = record nothing { subscriptions = ss }

abbrev pub control_only : ControlMessageProto → Contents
control_only c = record nothing {
  ihave = c.ihave;
  iwant = c.iwant;
  graft = c.graft;
  prune = c.prune;
}

pub contents-push_publish :
    (r : RpcProto) (m : MessageProto)
    → contents (push_publish r m) ≡ join (contents r) (messages_only (m ∷ []))
contents-push_publish r m = simp append-nil

pub contents-push_subscription :
    (r : RpcProto) (s : SubOptsProto)
    → contents (push_subscription r s) ≡ join (contents r) (subscriptions_only (s ∷ []))
contents-push_subscription r s = simp append-nil
