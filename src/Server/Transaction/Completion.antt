-- ===== src/Server/Transaction/Completion.antt =====
-- server/transaction.rs: the end of a transaction, its installation from the metadata log, and the
-- removal of old ones.
use bifrox.Prelude.{
  ℕ, ◌-◌, Bool, not, ◌&&◌, ◌||◌, Option, none, some, List, [], ◌∷◌, ◌++◌, ltb, ◌==◌, if◌then◌else◌,
  length, map,
}
use bifrox.Prelude.Text.{Text, text_key}
use bifrox.Prelude.Table
use bifrox.Prelude.Table.{Table}
use bifrox.Server.Transaction.Lso.{TopicPartition, LsoIndex, same_partition}
use bifrox.Server.Transaction.{
  TxStatus, aborted, same_status, is_terminal, PartitionRange, TransactionState, TransactionManager,
  TxResult, ok, err, not_found, pin_all, unpin_all,
}

abbrev pub retire_state : Text → Option TransactionState → LsoIndex → LsoIndex
retire_state id none index = index
retire_state id (some state) index = unpin_all id state.partitions index

-- The pins of the transaction's present entry go.
unfoldable pub retire_from_lso_index : Text → TransactionManager → TransactionManager
retire_from_lso_index id s = record s {
  lso_index = retire_state id (Table.get id s.transactions) s.lso_index;
}

-- The inner loop, which sets the end of every range of one partition.
abbrev pub set_end : TopicPartition × ℕ → List PartitionRange → List PartitionRange
set_end (key, end_offset) =
    map λ r. if same_partition r.partition key then record r { end_offset = end_offset } else r

unfoldable pub set_ends : List (TopicPartition × ℕ) → List PartitionRange → List PartitionRange
set_ends [] rs = rs
set_ends (e ∷ es) rs = set_ends es (set_end e rs)

abbrev pub completed :
    Text
    → TxStatus
    → List (TopicPartition × ℕ)
    → Option TransactionState
    → TransactionManager
    → TxResult (Unit {0}) × TransactionManager
completed id status ends none s = (err not_found, s)
completed id status ends (some state) s =
    let state' = record state { status = status; partitions = set_ends ends state.partitions } in
    (
      ok tt,
      retire_from_lso_index id (record s { transactions = Table.insert id state' s.transactions }),
    )

unfoldable pub complete_with_status :
    Text
    → TxStatus
    → List (TopicPartition × ℕ)
    → TransactionManager
    → TxResult (Unit {0}) × TransactionManager
unfolding retire_from_lso_index
complete_with_status id status ends s = completed id status ends (Table.get id s.transactions) s

unfoldable pub install_state : TransactionState → TransactionManager → TransactionManager
unfolding retire_from_lso_index
install_state state s =
    let s' =
      if is_terminal state.status
      then retire_from_lso_index state.transaction_id s
      else record s { lso_index = pin_all state.transaction_id state.partitions s.lso_index } in
    record s' { transactions = Table.insert state.transaction_id state s'.transactions }

unfoldable pub restore_transaction :
    Text → ℕ → TxStatus → List PartitionRange → ℕ → TransactionManager → TransactionManager
restore_transaction id producer_id status partitions now s = record s {
  lso_index = if is_terminal status then s.lso_index else pin_all id partitions s.lso_index;
  transactions =
      Table.insert id
        (record {
          transaction_id = id;
          producer_id = producer_id;
          status = status;
          partitions = partitions;
          created_at_ms = now;
        })
        s.transactions;
}

abbrev pub cleaned : Text → Option TransactionState → TransactionManager → TransactionManager
cleaned id none s = s
cleaned id (some state) s =
    if is_terminal state.status
    then record s { transactions = Table.remove id s.transactions }
    else s

unfoldable pub cleanup_completed_transaction : Text → TransactionManager → TransactionManager
cleanup_completed_transaction id s = cleaned id (Table.get id s.transactions) s

-- The ranges of one transaction that `aborted_ranges` collects.
abbrev pub ranges_of : TopicPartition → List PartitionRange → List (ℕ × ℕ)
ranges_of key [] = []
ranges_of key (r ∷ rs) =
    let rest = ranges_of key rs in
    if same_partition r.partition key then (r.start_offset, r.end_offset) ∷ rest else rest

unfoldable pub aborted_ranges : TopicPartition → Table Text TransactionState → List (ℕ × ℕ)
aborted_ranges key [] = []
aborted_ranges key ((id, state) ∷ m) =
    let rest = aborted_ranges key m in
    if same_status state.status aborted then ranges_of key state.partitions ++ rest else rest

unfoldable pub expired_ongoing_transaction_ids : ℕ → ℕ → Table Text TransactionState → List Text
expired_ongoing_transaction_ids now max_age_ms [] = []
expired_ongoing_transaction_ids now max_age_ms ((id, state) ∷ m) =
    let rest = expired_ongoing_transaction_ids now max_age_ms m in
    if not (is_terminal state.status) && ltb max_age_ms (now - state.created_at_ms)
    then id ∷ rest
    else rest

-- Whether `prune_stale_transactions` removes a state.
unfoldable pub is_stale : ℕ → ℕ → TransactionState → Bool
is_stale now max_age_ms state =
    let age_ms = now - state.created_at_ms in
    ltb max_age_ms age_ms || (max_age_ms == 0 && is_terminal state.status)

unfoldable pub stale_ids : ℕ → ℕ → Table Text TransactionState → List Text
stale_ids now max_age_ms [] = []
stale_ids now max_age_ms ((id, state) ∷ m) =
    let rest = stale_ids now max_age_ms m in
    if is_stale now max_age_ms state then id ∷ rest else rest

unfoldable pub remove_all : List Text → Table Text TransactionState → Table Text TransactionState
remove_all [] m = m
remove_all (id ∷ ids) m = remove_all ids (Table.remove id m)

unfoldable pub prune_stale_transactions : ℕ → ℕ → TransactionManager → ℕ × TransactionManager
prune_stale_transactions now max_age_ms s =
    let ids = stale_ids now max_age_ms s.transactions in
    (length ids, record s { transactions = remove_all ids s.transactions })
