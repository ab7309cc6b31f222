-- ===== src/Server/Transaction/Release.antt =====
-- What the end of a transaction releases of the index, and what it leaves behind.
use Prim.Native.Nat.{min}
use bifrox.Prelude.{
  ℕ, ◌≡◌, ◌≢◌, refl, ap, ◌∙◌, inl, inr, Bool, true, false, some, List, [], ◌∷◌, ◌≤◌, ◌<◌,
  Bool-cases, arith, Occurs,
}
use bifrox.Prelude.Text.{Text, same_text_iff, text_key}
use bifrox.Prelude.Table
use bifrox.Prelude.Table.{Table, get-insert}
use bifrox.Server.Transaction.Lso.{
  TopicPartition, LsoIndex, same_partition, same_partition_iff, pinned, last_stable_offset,
  last_stable_offset-le,
}
use bifrox.Server.Transaction.Pins.{pinned-unpin_lso}
use bifrox.Server.Transaction.{
  TxStatus, ongoing, PartitionRange, TransactionState, TransactionManager, unpin_all, transition,
  register_partition_durable, publish, lower_start,
}
use bifrox.Server.Transaction.Completion.{complete_with_status, set_end, set_ends}
use bifrox.Server.Transaction.Isolation.{pinned-unpin_all, pinned-pin_all}

unpin_all-set_end :
    (id : Text) (key : TopicPartition) (o : ℕ) (rs : List PartitionRange) (index : LsoIndex)
    → unpin_all id (set_end (key, o) rs) index ≡ unpin_all id rs index
unfolding unpin_all
unpin_all-set_end id key o [] index = refl
unpin_all-set_end id key o (r ∷ rs) index = elim (Bool-cases (same_partition r.partition key)) [
  | inl e ↦ rw e (unpin_all-set_end id key o rs _)
  | inr e ↦ rw e (unpin_all-set_end id key o rs _)
]

unpin_all-set_ends :
    (id : Text) (es : List (TopicPartition × ℕ)) (rs : List PartitionRange) (index : LsoIndex)
    → unpin_all id (set_ends es rs) index ≡ unpin_all id rs index
unfolding set_ends
unpin_all-set_ends id [] rs index = refl
unpin_all-set_ends id ((key, o) ∷ es) rs index =
    unpin_all-set_ends id es (set_end (key, o) rs) index ∙ unpin_all-set_end id key o rs index

-- The index after a completion, in terms of the ranges before it.
lso_index_complete :
    (id : Text) (status : TxStatus) (ends : List (TopicPartition × ℕ)) (s : TransactionManager)
    (st : TransactionState)
    → Table.get id s.transactions ≡ some st
    → (complete_with_status id status ends s).1.lso_index ≡ unpin_all id st.partitions s.lso_index
unfolding complete_with_status
lso_index_complete id status ends s st e =
    rw (e, get-insert, (same_text_iff id id).1 refl)
      (unpin_all-set_ends id ends st.partitions s.lso_index)

stays_unpinned :
    (k : TopicPartition) (o : ℕ) (i id : Text) (rs : List PartitionRange) (index : LsoIndex)
    → pinned k o i index ≡ false
    → pinned k o i (unpin_all id rs index) ≡ false
unfolding unpin_all
stays_unpinned k o i id [] index h = h
stays_unpinned k o i id (r ∷ rs) index h =
    stays_unpinned k o i id rs _
      (ground (arith, pinned-unpin_lso r.partition k r.start_offset o id i index))

unpinned :
    (id : Text) (r : PartitionRange) (rs : List PartitionRange) (index : LsoIndex)
    → Occurs r rs
    → pinned r.partition r.start_offset id (unpin_all id rs index) ≡ false
unfolding unpin_all
unpinned id r [] index m = absurd m
unpinned id r (q ∷ rs) index (inr m) = unpinned id r rs _ m
unpinned id r (q ∷ rs) index (inl e) = stays_unpinned r.partition r.start_offset id id rs _ (
    rw (← e) (
      ground (
        arith,
        pinned-unpin_lso r.partition r.partition r.start_offset r.start_offset id id index,
        same_partition_iff r.partition r.partition,
        same_text_iff id id,
      )))

-- The end of a transaction, by commit or abort, takes back the pin of each of its ranges, and
-- leaves the pins of every other transaction.
pub complete_releases :
    (id : Text) (status : TxStatus) (ends : List (TopicPartition × ℕ)) (s : TransactionManager)
    (st : TransactionState)
    → Table.get id s.transactions ≡ some st
    → let index = (complete_with_status id status ends s).1.lso_index in
      ((r : PartitionRange)
        → Occurs r st.partitions
        → pinned r.partition r.start_offset id index ≡ false)
      × ((k : TopicPartition) (o : ℕ) (j : Text)
          → id ≢ j
          → pinned k o j index ≡ pinned k o j s.lso_index)
complete_releases id status ends s st e = rw (lso_index_complete id status ends s st e) (
  (λ r m. unpinned id r st.partitions s.lso_index m),
  (λ k o j differ.
      pinned-unpin_all k o j id st.partitions s.lso_index
        (ground (arith, differ, same_text_iff id j))),
)

abbrev pub always : TransactionState → Bool
always st = true

abbrev lowered : TransactionState → PartitionRange → ℕ → TransactionState
lowered st r start = record st { partitions = record r { start_offset = start } ∷ [] }

lower_start_self :
    (r : PartitionRange) (start : ℕ)
    → start < r.start_offset
    → lower_start r.partition start (r ∷ []) ≡ record r { start_offset = start } ∷ []
unfolding lower_start
lower_start_self r start lower =
    rw ((same_partition_iff r.partition r.partition).1 refl)
      (let least : min r.start_offset start ≡ start = omega arith in rw least)

registered :
    (id : Text) (s : TransactionManager) (st : TransactionState) (r : PartitionRange) (start : ℕ)
    → Table.get id s.transactions ≡ some st
    → st.status ≡ ongoing
    → st.partitions ≡ r ∷ []
    → start < r.start_offset
    → (register_partition_durable id r.partition start always s).1
      ≡ publish id (lowered st r start) s
unfolding register_partition_durable transition
registered id s st r start e live one lower =
    ground (arith, e, ap (lower_start r.partition start) one, lower_start_self r start lower)

other_start_survives :
    (id : Text) (r : PartitionRange) (start : ℕ) (index : LsoIndex)
    → start < r.start_offset
    → pinned r.partition r.start_offset id index ≡ true
    → pinned r.partition r.start_offset id
        (unpin_all id (record r { start_offset = start } ∷ []) index)
      ≡ true
unfolding unpin_all
other_start_survives id r start index lower h =
    ground (arith, pinned-unpin_lso r.partition r.partition start r.start_offset id id index)

-- An ongoing transaction of one range whose start is pinned registers a lower start of the same
-- partition, and then ends. The pin of the first start stays, so the last stable offset of the
-- partition does not pass it, though the transaction is over.
pub lowered_start_leaks :
    (id : Text) (status : TxStatus) (ends : List (TopicPartition × ℕ)) (s : TransactionManager)
    (st : TransactionState) (r : PartitionRange) (start : ℕ)
    → Table.get id s.transactions ≡ some st
    → st.status ≡ ongoing
    → st.partitions ≡ r ∷ []
    → pinned r.partition r.start_offset id s.lso_index ≡ true
    → start < r.start_offset
    → let s' = (register_partition_durable id r.partition start always s).1 in
      let s'' = (complete_with_status id status ends s').1 in
      last_stable_offset r.partition s''.lso_index ≤ r.start_offset
lowered_start_leaks id status ends s st r start e live one held lower =
    let next = lowered st r start in
    let stored : Table.get id (publish id next s).transactions ≡ some next =
      rw (get-insert, (same_text_iff id id).1 refl) in
    rw (registered id s st r start e live one lower) (
      last_stable_offset-le r.partition r.start_offset id _ (
        rw (lso_index_complete id status ends (publish id next s) next stored) (
          other_start_survives id r start _ lower
            (pinned-pin_all r.partition r.start_offset id id next.partitions s.lso_index held))))
