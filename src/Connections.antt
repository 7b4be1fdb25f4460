-- ===== src/Connections.antt =====
-- floodsub/src/connections: the connections of a node and their states.
pub mod Connection
pub mod Manager
