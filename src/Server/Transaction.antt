-- ===== src/Server/Transaction.antt =====
-- server/transaction.rs: `TransactionManager`, the states of transactions and their producers.
-- Each method holds the map entry that it changes, and is one step. The clock is the argument `now`,
-- in milliseconds. `persist` writes the state to `__transaction_state`; whether it returned `Ok` for
-- a state is the argument `persist`. An error's text is left out. A method that goes through
-- `transition` returns the whole new state here, of which its callers in the source take a part.
pub mod Lso
pub mod Pins
pub mod Completion
pub mod Isolation
pub mod Decisions
pub mod Release
pub mod Producers
pub mod Sequences
pub mod Encoding
mod Tests
use bifrox.Prelude.{
  ℕ, ◌+◌, ◌-◌, ◌%◌, ◌^◌, ◌≡◌, Bool, true, false, not, ◌&&◌, ◌||◌, Option, none, some, List, [], ◌∷◌,
  ◌++◌, ltb, leb, ◌==◌, if◌then◌else◌, any, retain, nat_key,
}
use Prim.Native.Nat.{min, max}
use bifrox.Prelude.Text.{Text, same_text, text_key}
use bifrox.Prelude.Table
use bifrox.Prelude.Table.{Table}
use bifrox.Server.Transaction.Lso.{
  TopicPartition, LsoIndex, u64_max, same_partition, partition_key, pin_lso, unpin_lso,
  last_stable_offset,
}

pub data TxStatus : Type 0 where
  ongoing prepare_commit prepare_abort committed aborted : TxStatus

abbrev pub same_status : TxStatus → TxStatus → Bool
same_status ongoing ongoing = true
same_status prepare_commit prepare_commit = true
same_status prepare_abort prepare_abort = true
same_status committed committed = true
same_status aborted aborted = true
same_status _ _ = false

-- `Committed` or `Aborted`.
abbrev pub is_terminal : TxStatus → Bool
is_terminal committed = true
is_terminal aborted = true
is_terminal _ = false

-- A member of `PartitionRangeList`.
pub record PartitionRange : Type 0 where
  pub partition : TopicPartition
  pub start_offset : ℕ
  pub end_offset : ℕ

pub record TransactionState : Type 0 where
  pub transaction_id : Text
  pub producer_id : ℕ
  pub status : TxStatus
  pub partitions : List PartitionRange
  pub created_at_ms : ℕ

pub record TransactionalProducerState : Type 0 where
  pub producer_id : ℕ
  pub producer_epoch : ℕ

pub record ProducerSequenceEntry : Type 0 where
  pub last_sequence : ℕ
  pub last_used : ℕ

pub record TransactionManager : Type 0 where
  pub producer_sequences : Table ℕ ProducerSequenceEntry
  pub sequence_clock : ℕ
  pub lso_index : LsoIndex
  pub transactions : Table Text TransactionState
  pub transactional_producers : Table Text TransactionalProducerState
  pub next_producer_id : ℕ

abbrev pub empty : TransactionManager
empty = record {
  producer_sequences = [];
  sequence_clock = 0;
  lso_index = [];
  transactions = [];
  transactional_producers = [];
  next_producer_id = 1;
}

pub data TxError : Type 0 where
  already_exists not_found not_ongoing other_decision persist_failed : TxError

pub data TxResult (A : Type 0) : Type 0 where
  ok : A → TxResult A
  err : TxError → TxResult A

-- The loop over a state's partitions that pins those with a start.
unfoldable pub pin_all : Text → List PartitionRange → LsoIndex → LsoIndex
pin_all id [] index = index
pin_all id (r ∷ rs) index =
    pin_all id rs
      (if r.start_offset == u64_max then index else pin_lso r.partition r.start_offset id index)

unfoldable pub unpin_all : Text → List PartitionRange → LsoIndex → LsoIndex
unpin_all id [] index = index
unpin_all id (r ∷ rs) index = unpin_all id rs (unpin_lso r.partition r.start_offset id index)

-- The entry of `id` replaced, and its starts pinned.
abbrev pub publish : Text → TransactionState → TransactionManager → TransactionManager
publish id next s = record s {
  transactions = Table.insert id next s.transactions;
  lso_index = pin_all id next.partitions s.lso_index;
}

abbrev pub commit_change :
    (TransactionState → Bool)
    → Text
    → TxResult TransactionState
    → TransactionManager
    → TxResult TransactionState × TransactionManager
commit_change persist id (err e) s = (err e, s)
commit_change persist id (ok next) s =
    if persist next then (ok next, publish id next s) else (err persist_failed, s)

unfoldable pub transition :
    Text
    → (Option TransactionState → TxResult TransactionState)
    → (TransactionState → Bool)
    → TransactionManager
    → TxResult TransactionState × TransactionManager
transition id change persist s = commit_change persist id (change (Table.get id s.transactions)) s

unfoldable pub new_state : Text → ℕ → ℕ → TransactionState
new_state id pid now = record {
  transaction_id = id;
  producer_id = pid;
  status = ongoing;
  partitions = [];
  created_at_ms = now;
}

abbrev pub begin_change : Text → ℕ → ℕ → Option TransactionState → TxResult TransactionState
begin_change id pid now none = ok (new_state id pid now)
begin_change id pid now (some old) = err already_exists

unfoldable pub begin_transaction_durable :
    Text
    → ℕ
    → ℕ
    → (TransactionState → Bool)
    → TransactionManager
    → TxResult TransactionState × TransactionManager
begin_transaction_durable id pid now persist s = transition id (begin_change id pid now) persist s

abbrev pub touches : TopicPartition → List PartitionRange → Bool
touches key = any (λ r. same_partition r.partition key)

-- The two loops, over the topics and the partitions of each, push each pair that is not there yet;
-- here the pairs come in one list.
unfoldable pub add_missing : List TopicPartition → List PartitionRange → List PartitionRange
add_missing [] rs = rs
add_missing (key ∷ keys) rs = add_missing keys (
    if touches key rs
    then rs
    else rs ++ (record { partition = key; start_offset = u64_max; end_offset = u64_max } ∷ []))

abbrev pub or_new : Text → ℕ → ℕ → Option TransactionState → TransactionState
or_new id pid now none = new_state id pid now
or_new id pid now (some old) = old

abbrev pub add_change :
    Text → ℕ → ℕ → List TopicPartition → Option TransactionState → TxResult TransactionState
add_change id pid now keys old =
    let next = or_new id pid now old in
    if not (next.producer_id == pid) || not (same_status next.status ongoing)
    then err not_ongoing
    else ok (record next { partitions = add_missing keys next.partitions })

unfoldable pub add_partitions_durable :
    Text
    → ℕ
    → ℕ
    → List TopicPartition
    → (TransactionState → Bool)
    → TransactionManager
    → TxResult TransactionState × TransactionManager
add_partitions_durable id pid now keys persist s =
    transition id (add_change id pid now keys) persist s

-- The first range of the partition gets the lower start; a new one is pushed at the end.
unfoldable pub lower_start : TopicPartition → ℕ → List PartitionRange → List PartitionRange
lower_start key start [] =
    record { partition = key; start_offset = start; end_offset = u64_max } ∷ []
lower_start key start (r ∷ rs) =
    let rest = lower_start key start rs in
    if same_partition r.partition key
    then record r { start_offset = min r.start_offset start } ∷ rs
    else r ∷ rest

abbrev pub register_change :
    TopicPartition → ℕ → Option TransactionState → TxResult TransactionState
register_change key start none = err not_found
register_change key start (some next) =
    if not (same_status next.status ongoing)
    then err not_ongoing
    else ok (record next { partitions = lower_start key start next.partitions })

unfoldable pub register_partition_durable :
    Text
    → TopicPartition
    → ℕ
    → (TransactionState → Bool)
    → TransactionManager
    → TxResult TransactionState × TransactionManager
register_partition_durable id key start persist s =
    transition id (register_change key start) persist s

abbrev pub prepare_change : TxStatus → Option TransactionState → TxResult TransactionState
prepare_change status none = err not_found
prepare_change status (some next) =
    if not (same_status next.status ongoing) && not (same_status next.status status)
    then err other_decision
    else ok (record next { status = status })

unfoldable pub prepare_durable :
    Text
    → TxStatus
    → (TransactionState → Bool)
    → TransactionManager
    → TxResult TransactionState × TransactionManager
prepare_durable id status persist s = transition id (prepare_change status) persist s
