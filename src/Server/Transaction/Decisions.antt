-- ===== src/Server/Transaction/Decisions.antt =====
-- What is final once it is decided, and what the end of a transaction releases.
use bifrox.Prelude.{
  ℕ, ◌≡◌, refl, inl, inr, Bool, false, Option, none, some, List, Bool-cases, arith,
}
use bifrox.Prelude.Text.{Text, same_text_iff, text_key}
use bifrox.Prelude.Table
use bifrox.Prelude.Table.{Table, get-insert, get-remove}
use bifrox.Server.Transaction.Lso.{TopicPartition}
use bifrox.Server.Transaction.{
  TxStatus, ongoing, same_status, TransactionState, TransactionManager, TxResult, TxError, ok, err,
  already_exists, not_ongoing, other_decision, transition, begin_change, add_change,
  register_change, prepare_change, begin_transaction_durable, add_partitions_durable,
  register_partition_durable, prepare_durable, commit_change,
}

-- A successful transition leaves its result in the entry.
get-transition :
    (id : Text) (change : Option TransactionState → TxResult TransactionState)
    (persist : TransactionState → Bool) (s : TransactionManager) (next : TransactionState)
    → (transition id change persist s).0 ≡ ok next
    → (Table.get id (transition id change persist s).1.transactions ≡ some next)
      × (change (Table.get id s.transactions) ≡ ok next)
unfolding transition
get-transition id change persist s next h = go (change (Table.get id s.transactions)) refl h
  where
    go :
        (r : TxResult TransactionState)
        → change (Table.get id s.transactions) ≡ r
        → (commit_change persist id r s).0 ≡ ok next
        → (Table.get id (commit_change persist id r s).1.transactions ≡ some next) × (r ≡ ok next)
    go (err e) x y = cc y
    go (ok n) x y = elim (Bool-cases (persist n)) [
      | inl p ↦ rw p (ground (arith, p, y, get-insert id id n s.transactions, same_text_iff id id))
      | inr p ↦ absurd (ground (arith, p, y))
    ]

-- A change that refuses leaves the manager as it was.
refused :
    (id : Text) (change : Option TransactionState → TxResult TransactionState)
    (persist : TransactionState → Bool) (s : TransactionManager) (st : TransactionState)
    (e : TxError)
    → Table.get id s.transactions ≡ some st
    → change (some st) ≡ err e
    → transition id change persist s ≡ (err e, s)
unfolding transition
refused id change persist s st e h c = rw (h, c)

prepared_status :
    (status : TxStatus) (o : Option TransactionState) (next : TransactionState)
    → prepare_change status o ≡ ok next
    → next.status ≡ status
prepared_status status none next h = cc h
prepared_status status (some st) next h = ground arith

-- After a successful prepare, for commit or for abort, the transaction can be begun no more, takes
-- no partitions and no other decision: each such call fails and leaves the manager as it is.
pub prepared_is_final :
    (id : Text) (status other : TxStatus) (persist persist' : TransactionState → Bool)
    (s : TransactionManager) (next : TransactionState) (pid now start : ℕ) (key : TopicPartition)
    (keys : List TopicPartition)
    → (prepare_durable id status persist s).0 ≡ ok next
    → same_status status ongoing ≡ false
    → same_status status other ≡ false
    → let s' = (prepare_durable id status persist s).1 in
      (next.status ≡ status)
      × (begin_transaction_durable id pid now persist' s' ≡ (err already_exists, s'))
      × (add_partitions_durable id pid now keys persist' s' ≡ (err not_ongoing, s'))
      × (register_partition_durable id key start persist' s' ≡ (err not_ongoing, s'))
      × (prepare_durable id other persist' s' ≡ (err other_decision, s'))
unfolding prepare_durable begin_transaction_durable add_partitions_durable
    register_partition_durable
prepared_is_final id status other persist persist' s next pid now start key keys h o d =
    let (stored, changed) = get-transition id (prepare_change status) persist s next h in
    let s' = (transition id (prepare_change status) persist s).1 in
    let is_status = prepared_status status (Table.get id s.transactions) next changed in
    (
      is_status,
      refused id (begin_change id pid now) persist' s' next already_exists stored refl,
      refused id (add_change id pid now keys) persist' s' next not_ongoing stored
          (rw (is_status, o) (ground arith)),
      refused id (register_change key start) persist' s' next not_ongoing stored
          (rw (is_status, o)),
      refused id (prepare_change other) persist' s' next other_decision stored
          (rw (is_status, o, d)),
    )
