-- ===== src/Segment.antt =====
-- The index files beside a log segment, under segment/.
pub mod Search
pub mod IndexFile
pub mod Index
pub mod TimeIndex
pub mod TxnIndex
mod Tests
