-- ===== src/Protocol.antt =====
-- protocol: the formats of the wire and of the log.
pub mod Batch
mod Tests
