-- ===== src/Replication.antt =====
-- src/replication: the election controller of a node.
pub mod Durable
pub mod Consensus
