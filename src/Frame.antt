-- ===== src/Frame.antt =====
-- floodsub/src/frame: messages, subscription actions and frames, over their protobuf forms.
pub mod Bytes
pub mod Message
pub mod SubOpts
pub mod Rpc
mod Examples
