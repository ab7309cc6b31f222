-- ===== src/Server/Transaction/Tests.antt =====
-- Runs of the transaction manager, and its theorems at concrete inputs.
use bifrox.Prelude.{
  Bool, true, ℕ, zero, suc, ◌≤◌, ◌≡◌, ◌≢◌, refl, inl, inr, true, false, some, List, [], ◌∷◌, arith,
  leb, Occurs,
}
use bifrox.Prelude.Text.{Text, codes, same_text, text_key}
use bifrox.Prelude.Table
use bifrox.Server.Transaction.Lso.{
  TopicPartition, u64_max, same_partition, partition_key, pinned, last_stable_offset,
}
use bifrox.Server.Transaction.{
  ongoing, prepare_commit, prepare_abort, committed, PartitionRange, TransactionState,
  TransactionManager, ok, err, already_exists, not_ongoing, other_decision, empty, transition,
  new_state, lower_start, add_missing, begin_transaction_durable, add_partitions_durable,
  register_partition_durable, prepare_durable,
}
use bifrox.Server.Transaction.Completion.{complete_with_status}
use bifrox.Server.Transaction.Isolation.Operations.{
  Operation, begin, add, register, apply, apply_all, apply_all_isolates,
}
use bifrox.Server.Transaction.Decisions.{prepared_is_final}
use bifrox.Server.Transaction.Release.{complete_releases, always, lowered_start_leaks}
use bifrox.Server.Transaction.Producers.{
  generate_producer_id, init_transactional_producer, validate_transactional_producer, init_fences,
  init_twice_fences, fenced,
}
use bifrox.Server.Transaction.Producers
use bifrox.Server.Transaction.Encoding.{encode_tx_state_record, decode_tx_state_record}
use bifrox.Server.Transaction.Encoding.RoundTrip.{decode-encode_tx_state_record}
use bifrox.Server.Transaction.Sequences.{
  Select, is_duplicate, record_sequence, is_protected, is_duplicate-record_sequence,
}

abbrev payments : Text
payments = codes "payments"

abbrev orders_0 : TopicPartition
orders_0 = (codes "orders", 0)

abbrev opening : List Operation
opening =
    begin payments 7 1000 always
    ∷ add payments 7 1000 (orders_0 ∷ []) always
    ∷ register payments orders_0 40 always
    ∷ []

abbrev open_range : PartitionRange
open_range = record { partition = orders_0; start_offset = 40; end_offset = u64_max }

abbrev open_state : TransactionState
open_state = record {
  transaction_id = payments;
  producer_id = 7;
  status = ongoing;
  partitions = open_range ∷ [];
  created_at_ms = 1000;
}

opened : Table.get payments (apply_all opening empty).transactions ≡ some open_state
unfolding apply_all apply begin_transaction_durable add_partitions_durable
    register_partition_durable transition new_state add_missing lower_start Table.get Table.insert
    same_text same_partition
opened = refl

apply_all_isolates_example : last_stable_offset orders_0 (apply_all opening empty).lso_index ≤ 40
apply_all_isolates_example =
    apply_all_isolates opening payments open_state open_range opened refl (inl refl)
      (λ e. absurd (omega arith))

abbrev one_open : TransactionManager
one_open = record empty {
  transactions = (payments, open_state) ∷ [];
  lso_index = (orders_0, (40, payments ∷ []) ∷ []) ∷ [];
}

abbrev prepared_state : TransactionState
prepared_state = record open_state { status = prepare_commit }

prepare_succeeds : (prepare_durable payments prepare_commit always one_open).0 ≡ ok prepared_state
unfolding prepare_durable transition Table.get same_text
prepare_succeeds = refl

prepared_is_final_example :
    let s' = (prepare_durable payments prepare_commit always one_open).1 in
    (prepare_commit ≡ prepare_commit)
    × (begin_transaction_durable payments 7 5 always s' ≡ (err already_exists, s'))
    × (add_partitions_durable payments 7 5 [] always s' ≡ (err not_ongoing, s'))
    × (register_partition_durable payments orders_0 50 always s' ≡ (err not_ongoing, s'))
    × (prepare_durable payments prepare_abort always s' ≡ (err other_decision, s'))
prepared_is_final_example =
    prepared_is_final payments prepare_commit prepare_abort always always one_open prepared_state 7
      5 50 orders_0 [] prepare_succeeds refl refl

one_open_has : Table.get payments one_open.transactions ≡ some open_state
unfolding Table.get same_text
one_open_has = refl

complete_releases_example :
    let index = (complete_with_status payments committed [] one_open).1.lso_index in
    ((r : PartitionRange)
      → Occurs r (open_range ∷ [])
      → pinned r.partition r.start_offset payments index ≡ false)
    × ((k : TopicPartition) (o : ℕ) (j : Text)
        → payments ≢ j
        → pinned k o j index ≡ pinned k o j one_open.lso_index)
complete_releases_example = complete_releases payments committed [] one_open open_state one_open_has

one_open_pinned : pinned orders_0 40 payments one_open.lso_index ≡ true
unfolding pinned Table.get same_text same_partition
one_open_pinned = refl

lowered_start_leaks_example :
    let s' = (register_partition_durable payments orders_0 30 always one_open).1 in
    let s'' = (complete_with_status payments committed [] s').1 in
    last_stable_offset orders_0 s''.lso_index ≤ 40
lowered_start_leaks_example =
    lowered_start_leaks payments committed [] one_open open_state open_range 30 one_open_has refl
      refl one_open_pinned (omega arith)

registered_first : (init_transactional_producer payments empty).0 ≡ Producers.ok (1, 0)
unfolding init_transactional_producer Table.get
registered_first = refl

registered_second :
    (init_transactional_producer payments (init_transactional_producer payments empty).1).0
    ≡ Producers.ok (1, 1)
unfolding init_transactional_producer Table.get Table.insert same_text
registered_second = refl

init_fences_example :
    let s' = (init_transactional_producer payments empty).1 in
    (validate_transactional_producer payments 1 0 s' ≡ Producers.ok tt)
    × ((old : ℕ)
        → old ≢ 0
        → validate_transactional_producer payments 1 old s' ≡ Producers.err fenced)
    × ((j : Text) (p e : ℕ)
        → payments ≢ j
        → validate_transactional_producer j p e s' ≡ validate_transactional_producer j p e empty)
init_fences_example = init_fences payments empty 1 0 registered_first

init_twice_fences_example :
    let s' = (init_transactional_producer payments empty).1 in
    let s'' = (init_transactional_producer payments s').1 in
    (validate_transactional_producer payments 1 1 s'' ≡ Producers.ok tt)
    × (validate_transactional_producer payments 1 0 s'' ≡ Producers.err fenced)
init_twice_fences_example =
    init_twice_fences payments empty 1 0 1 1 registered_first registered_second

abbrev first_ones : Select
first_ones zero l = []
first_ones (suc n) [] = []
first_ones (suc n) (p ∷ l) = p ∷ first_ones n l

first_ones_candidates :
    (n : ℕ) (l : List (ℕ × ℕ)) (p : ℕ × ℕ) → Occurs p (first_ones n l) → Occurs p l
first_ones_candidates zero l p m = absurd m
first_ones_candidates (suc n) [] p m = m
first_ones_candidates (suc n) (q ∷ l) p (inl e) = inl e
first_ones_candidates (suc n) (q ∷ l) p (inr m) = inr (first_ones_candidates n l p m)

is_duplicate-record_sequence_example :
    let s' = record_sequence first_ones 9 5 one_open in
    ((q : ℕ) → is_duplicate 9 q s' ≡ leb q 5)
    × ((j q : ℕ)
        → j ≢ 9
        → is_protected j one_open.transactions ≡ true
        → is_duplicate j q s' ≡ is_duplicate j q one_open)
is_duplicate-record_sequence_example =
    is_duplicate-record_sequence first_ones 9 5 one_open first_ones_candidates
      (λ e. absurd (omega arith))

abbrev any_bytes : Text → Bool
any_bytes s = true

decode-encode_tx_state_record_example :
    (bytes : List ℕ) × (encode_tx_state_record prepare_commit 7 payments (open_range ∷ [])
      ≡ some bytes)
    × (decode_tx_state_record any_bytes bytes ≡ some (prepare_commit, 7, payments, open_range ∷ []))
decode-encode_tx_state_record_example =
    decode-encode_tx_state_record any_bytes prepare_commit 7 payments (open_range ∷ [])
      (omega arith) refl (omega arith)
      ((refl, omega arith, omega arith, omega arith, omega arith), tt) (omega arith)
