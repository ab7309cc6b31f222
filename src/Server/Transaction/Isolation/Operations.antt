-- ===== src/Server/Transaction/Isolation/Operations.antt =====
-- Any sequence of operations on the transaction manager.
use bifrox.Prelude.{
  ℕ, ◌≡◌, ◌≢◌, refl, ◌∙◌, Bool, true, false, Option, none, some, List, [], ◌∷◌, ◌≤◌, Bool-cases,
  arith, Occurs, inl, inr,
}
use bifrox.Prelude.Text.{Text, same_text, text_key}
use bifrox.Prelude.Table
use bifrox.Prelude.Table.{Table, get-insert, get-remove}
use bifrox.Server.Transaction.Lso.{TopicPartition, LsoIndex, u64_max, pinned, last_stable_offset}
use bifrox.Server.Transaction.{
  TxStatus, is_terminal, committed, aborted, PartitionRange, TransactionState, TransactionManager,
  empty, begin_transaction_durable, add_partitions_durable, register_partition_durable,
  prepare_durable,
}
use bifrox.Server.Transaction.Completion.{
  retire_from_lso_index, retire_state, complete_with_status, completed, install_state,
  restore_transaction, cleanup_completed_transaction, cleaned, prune_stale_transactions, remove_all,
  stale_ids,
}
use bifrox.Server.Transaction.Isolation.{
  IsPinned, pin_all-HeldBack, pinned-pin_all, pinned-unpin_all, insert-IsPinned,
  transition-IsPinned, in_flight_bound,
}

pub data Operation : Type 0 where
  begin : Text → ℕ → ℕ → (TransactionState → Bool) → Operation
  add : Text → ℕ → ℕ → List TopicPartition → (TransactionState → Bool) → Operation
  register : Text → TopicPartition → ℕ → (TransactionState → Bool) → Operation
  prepare : Text → TxStatus → (TransactionState → Bool) → Operation
  commit : Text → List (TopicPartition × ℕ) → Operation
  abort : Text → List (TopicPartition × ℕ) → Operation
  install : TransactionState → Operation
  restore : Text → ℕ → TxStatus → List PartitionRange → ℕ → Operation
  cleanup : Text → Operation
  prune : ℕ → ℕ → Operation

unfoldable pub apply : Operation → TransactionManager → TransactionManager
apply (begin id pid now persist) s = (begin_transaction_durable id pid now persist s).1
apply (add id pid now keys persist) s = (add_partitions_durable id pid now keys persist s).1
apply (register id key start persist) s = (register_partition_durable id key start persist s).1
apply (prepare id status persist) s = (prepare_durable id status persist s).1
apply (commit id ends) s = (complete_with_status id committed ends s).1
apply (abort id ends) s = (complete_with_status id aborted ends s).1
apply (install state) s = install_state state s
apply (restore id pid status ranges now) s = restore_transaction id pid status ranges now s
apply (cleanup id) s = cleanup_completed_transaction id s
apply (prune now max_age_ms) s = (prune_stale_transactions now max_age_ms s).1

unfoldable pub apply_all : List Operation → TransactionManager → TransactionManager
apply_all [] s = s
apply_all (op ∷ ops) s = apply_all ops (apply op s)

retire_keeps :
    (id : Text) (o : Option TransactionState) (index : LsoIndex) (k : TopicPartition) (n : ℕ)
    (j : Text)
    → same_text id j ≡ false
    → pinned k n j index ≡ true
    → pinned k n j (retire_state id o index) ≡ true
retire_keeps id none index k n j differ h = h
retire_keeps id (some st) index k n j differ h =
    pinned-unpin_all k n j id st.partitions index differ ∙ h

completed-IsPinned :
    (id : Text) (status : TxStatus) (ends : List (TopicPartition × ℕ)) (o : Option TransactionState)
    (s : TransactionManager)
    → is_terminal status ≡ true
    → IsPinned s
    → IsPinned (completed id status ends o s).1
unfolding retire_from_lso_index
completed-IsPinned id status ends none s t p = p
completed-IsPinned id status ends (some state) s t p =
    insert-IsPinned s id _ _ p (λ k n j differ h. retire_keeps id _ s.lso_index k n j differ h)
      (λ live. absurd (ground arith))

install-IsPinned :
    (state : TransactionState) (s : TransactionManager)
    → IsPinned s
    → IsPinned (install_state state s)
unfolding install_state
install-IsPinned state s p = elim (Bool-cases (is_terminal state.status)) [
  | inl e ↦ rw e (
      insert-IsPinned s state.transaction_id state _ p
        (λ k n j differ h. retire_keeps state.transaction_id _ s.lso_index k n j differ h)
        (λ live. absurd (ground (arith, e))))
  | inr e ↦ rw e (
      insert-IsPinned s state.transaction_id state _ p
        (λ k n j _ h. pinned-pin_all k n j state.transaction_id state.partitions s.lso_index h)
        (λ _. pin_all-HeldBack state.transaction_id state.partitions s.lso_index))
]

restore-IsPinned :
    (id : Text) (pid : ℕ) (status : TxStatus) (ranges : List PartitionRange) (now : ℕ)
    (s : TransactionManager)
    → IsPinned s
    → IsPinned (restore_transaction id pid status ranges now s)
unfolding restore_transaction
restore-IsPinned id pid status ranges now s p = elim (Bool-cases (is_terminal status)) [
  | inl e ↦
      rw e
        (insert-IsPinned s id _ s.lso_index p (λ k n j _ h. h) (λ live. absurd (ground (arith, e))))
  | inr e ↦ rw e (
      insert-IsPinned s id _ _ p (λ k n j _ h. pinned-pin_all k n j id ranges s.lso_index h)
        (λ _. pin_all-HeldBack id ranges s.lso_index))
]

remove-IsPinned :
    (id : Text) (s : TransactionManager)
    → IsPinned s
    → IsPinned (record s { transactions = Table.remove id s.transactions })
remove-IsPinned id s p = record {
  held = λ j st e live. p.held j st (ground (arith, e, get-remove id j s.transactions)) live;
}

cleaned-IsPinned :
    (id : Text) (o : Option TransactionState) (s : TransactionManager)
    → IsPinned s
    → IsPinned (cleaned id o s)
cleaned-IsPinned id none s p = p
cleaned-IsPinned id (some state) s p = elim (Bool-cases (is_terminal state.status)) [
  | inl e ↦ rw e (remove-IsPinned id s p)
  | inr e ↦ rw e p
]

remove_all-IsPinned :
    (ids : List Text) (s : TransactionManager)
    → IsPinned s
    → IsPinned (record s { transactions = remove_all ids s.transactions })
unfolding remove_all
remove_all-IsPinned [] s p = p
remove_all-IsPinned (id ∷ ids) s p =
    remove_all-IsPinned ids (record s { transactions = Table.remove id s.transactions })
      (remove-IsPinned id s p)

apply-IsPinned : (op : Operation) (s : TransactionManager) → IsPinned s → IsPinned (apply op s)
unfolding apply begin_transaction_durable add_partitions_durable register_partition_durable
    prepare_durable complete_with_status cleanup_completed_transaction prune_stale_transactions
apply-IsPinned (begin id pid now persist) s p = transition-IsPinned id _ persist s p
apply-IsPinned (add id pid now keys persist) s p = transition-IsPinned id _ persist s p
apply-IsPinned (register id key start persist) s p = transition-IsPinned id _ persist s p
apply-IsPinned (prepare id status persist) s p = transition-IsPinned id _ persist s p
apply-IsPinned (commit id ends) s p =
    completed-IsPinned id committed ends (Table.get id s.transactions) s refl p
apply-IsPinned (abort id ends) s p =
    completed-IsPinned id aborted ends (Table.get id s.transactions) s refl p
apply-IsPinned (install state) s p = install-IsPinned state s p
apply-IsPinned (restore id pid status ranges now) s p =
    restore-IsPinned id pid status ranges now s p
apply-IsPinned (cleanup id) s p = cleaned-IsPinned id (Table.get id s.transactions) s p
apply-IsPinned (prune now max_age_ms) s p =
    remove_all-IsPinned (stale_ids now max_age_ms s.transactions) s p

apply_all-IsPinned :
    (ops : List Operation) (s : TransactionManager) → IsPinned s → IsPinned (apply_all ops s)
unfolding apply_all
apply_all-IsPinned [] s p = p
apply_all-IsPinned (op ∷ ops) s p = apply_all-IsPinned ops (apply op s) (apply-IsPinned op s p)

empty-IsPinned : IsPinned empty
unfolding Table.get
empty-IsPinned = record { held = λ id st e live. cc e }

-- After any sequence of operations from the empty manager, the last stable offset of a partition is
-- at most the first offset there (other than the largest 64-bit number, which stands for none yet)
-- of each transaction that is neither committed nor aborted.
pub apply_all_isolates :
    (ops : List Operation) (id : Text) (st : TransactionState) (r : PartitionRange)
    → Table.get id (apply_all ops empty).transactions ≡ some st
    → is_terminal st.status ≡ false
    → Occurs r st.partitions
    → r.start_offset ≢ u64_max
    → last_stable_offset r.partition (apply_all ops empty).lso_index ≤ r.start_offset
apply_all_isolates ops id st r =
    in_flight_bound (apply_all ops empty) id st r (apply_all-IsPinned ops empty empty-IsPinned)
