-- ===== src/Lib.antt =====
-- Bifrox is a distributed event-streaming broker written in Rust. This library models the parts of
-- it that decide: who may vote and lead, who may read and write, which transactional records are
-- stable, who holds which records of a share group, which offsets a group has committed, and where
-- in a log segment an offset or a time stands.
--
-- The parts, and the files that model them:
-- * Replication/Durable models src/durable.rs (`replace`): a small file is replaced whole, and a
--   failure comes before or after the rename.
-- * Replication/Consensus models src/replication/consensus.rs (`BifroxConsensus`): a record
--   `Controller` for `ControllerInner`, one function per method, and the hard-state file that each
--   change of the term or of the vote is written to through Durable. Below it, HardState reads the
--   13 bytes back, Fencing follows a node after a failed write, and Votes follows a node over
--   calls, failed writes and restarts (`boot` is the start-up in src/server/engine.rs).
-- * Server/Acl models src/server/acl.rs (`AclManager`), with `cidr_contains` of
--   src/server/listener.rs in Cidr and `glob_match` in Glob. Below Glob, Termination and Matching
--   follow its loop. Buckets is about storing rules, Placement about where `bucket_key` files them,
--   Decision about `authorize`.
-- * Server/Transaction models src/server/transaction.rs (`TransactionManager`): Lso the index that
--   the last stable offset is read from, Completion the end, installation and pruning of
--   transactions, Producers the ids and epochs, Sequences the idempotent producers and their
--   eviction, Encoding the records of `__transaction_state` with `write_pascal_string` of
--   src/protocol/wire.rs. The proofs stand in Pins, Isolation, Decisions, Release and RoundTrip.
-- * Server/Share models src/server/share/partition.rs (`SharePartition`): Batches the map of
--   in-flight batches and the loops over it, Timers the set of lock-expiry timers, and Partition
--   the methods, with `acknowledge` in Acknowledge and `acquire_records` in Acquire. The proofs
--   stand in Order, Fetched, Restart, Operations, Acknowledged, Leases, Attempts and Inverted.
-- * Segment models src/segment/index.rs, src/segment/timeindex.rs and src/segment/txnindex.rs:
--   Index, TimeIndex and TxnIndex, which share the file of fixed-width entries in IndexFile and the
--   binary search in Search.
-- * Protocol/Batch models src/protocol/batch.rs (`RecordBatch`): the header, its encoding and its
--   decoding, and in Records the uncompressed records.
-- * ConsumerGroup models src/consumer_group.rs (`ConsumerGroupManager`): the frames of the log, the
--   loops that recover it, commits and compaction. Frames, RoundTrip, Progress, Recovery, Chunks
--   and Logged are about reading the log, Commits, Survival, Losses and Interrupted about what a
--   restart finds.
-- * Prelude holds the shared types, lists over the native numbers, byte strings and association
--   lists.
--
-- How the code is read. A struct is a record and a method a function from the state to its result
-- and the next state. A mutex or a map entry that is held over a method makes it one step. Hash
-- maps are association lists with a lawful equality of keys. Strings are lists of byte codes.
-- Clocks are arguments. File writes take an argument that says how far the operating system lets
-- them come, so that each theorem covers every failure it does not exclude. Fixed-width integers
-- are natural numbers with the wrap-around or the saturation of the source written out, and a
-- signed one is its bit pattern.
--
-- Bounds. The theorem on votes takes node ids below 2^32, which is their type, and a highest term
-- plus number of events below 2^64, which no run reaches. The lookup in the offset index takes a
-- target less than 2^32 beyond the base offset, since the source narrows the difference to 32 bits.
-- Glob matching runs on fuel for every backtrack of the pattern at every position of the text, and
-- the recovery of the offset log on the length of the buffer, since a frame takes at least a byte.
--
-- Parameters. The checksum of crc32fast is a parameter of the offset log and of batches, taken to
-- have 32 bits where a theorem says so. The log that a share partition fetches from is an argument,
-- and the theorems take it to give its records in the order of their offsets. The parser of IP
-- addresses, the binary search and the partial selection are the standard library's; what is used
-- of the last two is stated as a hypothesis of the theorems that need it.
--
-- Not modelled: the rest of the network protocol and its codecs, compression, the segment log and
-- its manager, the engine, the request handlers, replication transport and metadata, the manager of
-- share groups, the coordinator and the clients.
pub mod Prelude
pub mod Replication
pub mod Server
pub mod Segment
pub mod ConsumerGroup
pub mod Protocol
