-- ===== src/Proto.antt =====
-- floodsub/src/proto.rs: the protobuf messages of an RPC frame, with the fields that the crate reads
-- and writes. The items of a control message are foreign data, which the code only copies.
pub mod Validation
pub mod Fragmentation
mod Examples
use rust_libp2p_pubsub.Prelude.{ℕ, Bool, Option, none, List, []}
use rust_libp2p_pubsub.Prelude.Order.{Bytes}

pub record MessageProto : Type 0 where
  pub from : Option Bytes
  pub payload : Option Bytes  -- `data`
  pub seqno : Option Bytes
  pub topic : Bytes
  pub signature : Option Bytes
  pub key : Option Bytes

pub record SubOptsProto : Type 0 where
  pub subscribe : Option Bool
  pub topic_id : Option Bytes

abbrev pub ControlItem : Type 0
ControlItem = ℕ

pub record ControlMessageProto : Type 0 where
  pub ihave : List ControlItem
  pub iwant : List ControlItem
  pub graft : List ControlItem
  pub prune : List ControlItem

pub record RpcProto : Type 0 where
  pub subscriptions : List SubOptsProto
  pub publish : List MessageProto
  pub control : Option ControlMessageProto

-- `ControlMessageProto::default()`
abbrev pub empty_control : ControlMessageProto
empty_control = record { ihave = []; iwant = []; graft = []; prune = [] }

abbrev pub new_rpc : RpcProto
new_rpc = record { subscriptions = []; publish = []; control = none }
