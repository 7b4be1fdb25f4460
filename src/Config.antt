-- ===== src/Config.antt =====
-- floodsub/src/config.rs: the configuration of the behaviour. Times are in seconds.
use rust_libp2p_pubsub.Prelude.{ℕ}

pub record Config : Type 0 where
  pub max_frame_size : ℕ
  pub connection_idle_timeout : ℕ

-- `Config::default()`
abbrev pub default : Config
default = record { max_frame_size = 65537; connection_idle_timeout = 120 }
