-- ===== src/Collections.antt =====
-- The collections of the standard library, as far as the crate uses them.
pub mod BTreeSet
pub mod HashMap
pub mod SetMap
pub mod Vec
pub mod VecMap
