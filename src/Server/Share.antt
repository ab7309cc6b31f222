-- ===== src/Server/Share.antt =====
-- server/share: share groups, whose members lease records of a partition and acknowledge them.
pub mod Batches
pub mod Timers
pub mod Partition
pub mod Leases
pub mod Attempts
mod Tests
