-- ===== src/Node.antt =====
-- driver/node: the lifecycle of a node of the network.
pub mod Lifecycle
