-- ===== src/Server/Transaction/Producers.antt =====
-- server/transaction.rs: producer ids and epochs. An epoch is an i16, given as its bit pattern: a
-- negative one, which only a restored state can have, is from 2^15 on.
use Prim.Native.Nat.{max, min}
use bifrox.Prelude.{
  ℕ, ◌+◌, ◌-◌, ◌%◌, ◌^◌, ◌≡◌, ◌≢◌, refl, not, Option, none, some, ◌==◌, if◌then◌else◌, nat_key,
  arith,
}
use bifrox.Prelude.Text.{Text, same_text_iff, text_key}
use bifrox.Prelude.Table
use bifrox.Prelude.Table.{Table, get-insert, get-remove}
use bifrox.Server.Transaction.{TransactionManager, TransactionalProducerState}

abbrev pub max_epoch : ℕ
max_epoch = 32767

pub data ProducerError : Type 0 where
  epoch_exhausted not_initialized id_mismatch fenced : ProducerError

pub data ProducerResult (A : Type 0) : Type 0 where
  ok : A → ProducerResult A
  err : ProducerError → ProducerResult A

-- `fetch_add` wraps at 64 bits.
unfoldable pub generate_producer_id : TransactionManager → ℕ × TransactionManager
generate_producer_id s =
    (s.next_producer_id, record s { next_producer_id = (s.next_producer_id + 1) % 2 ^ 64 })

abbrev pub set_producer : Text → ℕ → ℕ → TransactionManager → TransactionManager
set_producer id producer_id producer_epoch s = record s {
  transactional_producers =
      Table.insert id (record { producer_id = producer_id; producer_epoch = producer_epoch })
        s.transactional_producers;
}

-- `checked_add(1)`: all but the greatest epoch have a next one.
abbrev pub next_epoch : ℕ → ℕ
next_epoch epoch = (epoch + 1) % 2 ^ 16

abbrev pub init_of :
    Text
    → Option TransactionalProducerState
    → TransactionManager
    → ProducerResult (ℕ × ℕ) × TransactionManager
init_of id (some p) s =
    if not (p.producer_epoch == max_epoch)
    then (
      ok (p.producer_id, next_epoch p.producer_epoch),
      set_producer id p.producer_id (next_epoch p.producer_epoch) s,
    )
    else (err epoch_exhausted, s)
init_of id none s =
    let (producer_id, s') = generate_producer_id s in
    (ok (producer_id, 0), set_producer id producer_id 0 s')

unfoldable pub init_transactional_producer :
    Text → TransactionManager → ProducerResult (ℕ × ℕ) × TransactionManager
unfolding generate_producer_id
init_transactional_producer id s = init_of id (Table.get id s.transactional_producers) s

abbrev pub next_of :
    Option TransactionalProducerState
    → TransactionManager
    → ProducerResult (ℕ × ℕ) × TransactionManager
next_of (some p) s =
    if not (p.producer_epoch == max_epoch)
    then (ok (p.producer_id, next_epoch p.producer_epoch), s)
    else (err epoch_exhausted, s)
next_of none s = let (producer_id, s') = generate_producer_id s in (ok (producer_id, 0), s')

unfoldable pub next_transactional_producer :
    Text → TransactionManager → ProducerResult (ℕ × ℕ) × TransactionManager
unfolding generate_producer_id
next_transactional_producer id s = next_of (Table.get id s.transactional_producers) s

abbrev pub checked : Option TransactionalProducerState → ℕ → ℕ → ProducerResult (Unit {0})
checked none producer_id producer_epoch = err not_initialized
checked (some p) producer_id producer_epoch =
    if not (p.producer_id == producer_id)
    then err id_mismatch
    else if not (p.producer_epoch == producer_epoch)
    then err fenced
    else ok tt

unfoldable pub validate_transactional_producer :
    Text → ℕ → ℕ → TransactionManager → ProducerResult (Unit {0})
validate_transactional_producer id producer_id producer_epoch s =
    checked (Table.get id s.transactional_producers) producer_id producer_epoch

-- `saturating_add`, then `fetch_max`.
unfoldable pub observe_producer_id : ℕ → TransactionManager → TransactionManager
observe_producer_id producer_id s = record s {
  next_producer_id = max s.next_producer_id (min (producer_id + 1) (2 ^ 64 - 1));
}

unfoldable pub restore_transactional_producer :
    Text → ℕ → ℕ → TransactionManager → TransactionManager
unfolding observe_producer_id
restore_transactional_producer id producer_id producer_epoch s =
    observe_producer_id producer_id (set_producer id producer_id producer_epoch s)

init_of_stores :
    (id : Text) (o : Option TransactionalProducerState) (s : TransactionManager) (pid epoch : ℕ)
    → (init_of id o s).0 ≡ ok (pid, epoch)
    → (init_of id o s).1.transactional_producers
      ≡ Table.insert id
          (record { producer_id = pid; producer_epoch = epoch })
          s.transactional_producers
unfolding generate_producer_id
init_of_stores id none s pid epoch h = ground arith
init_of_stores id (some p) s pid epoch h = ground arith

-- A successful registration makes the new epoch valid and fences every other one, and leaves what is
-- valid for every other transactional id.
pub init_fences :
    (id : Text) (s : TransactionManager) (pid epoch : ℕ)
    → (init_transactional_producer id s).0 ≡ ok (pid, epoch)
    → let s' = (init_transactional_producer id s).1 in
      (validate_transactional_producer id pid epoch s' ≡ ok tt)
      × ((old : ℕ) → old ≢ epoch → validate_transactional_producer id pid old s' ≡ err fenced)
      × ((j : Text) (p e : ℕ)
          → id ≢ j
          → validate_transactional_producer j p e s' ≡ validate_transactional_producer j p e s)
unfolding init_transactional_producer validate_transactional_producer
init_fences id s pid epoch h =
    rw (init_of_stores id (Table.get id s.transactional_producers) s pid epoch h) (
      rw (get-insert, (same_text_iff id id).1 refl) (ground arith),
      (λ old differ. rw (get-insert, (same_text_iff id id).1 refl) (ground (arith, differ))),
      (λ j p e differ. rw get-insert (ground (arith, differ, same_text_iff id j))),
    )

init_stores :
    (id : Text) (s : TransactionManager) (pid epoch : ℕ)
    → (init_transactional_producer id s).0 ≡ ok (pid, epoch)
    → Table.get id (init_transactional_producer id s).1.transactional_producers
      ≡ some (record { producer_id = pid; producer_epoch = epoch })
unfolding init_transactional_producer
init_stores id s pid epoch h =
    rw (init_of_stores id (Table.get id s.transactional_producers) s pid epoch h)
      (rw (get-insert, (same_text_iff id id).1 refl))

-- A successful registration of a known id keeps its producer id and changes its epoch.
init_raises :
    (id : Text) (s : TransactionManager) (p : TransactionalProducerState) (pid epoch : ℕ)
    → Table.get id s.transactional_producers ≡ some p
    → (init_transactional_producer id s).0 ≡ ok (pid, epoch)
    → (pid ≡ p.producer_id) × (epoch ≢ p.producer_epoch)
unfolding init_transactional_producer
init_raises id s p pid epoch e h = ground (arith, e)

-- A producer that registered its transactional id is fenced as soon as another registers it: the
-- epoch that was valid before is refused after.
pub init_twice_fences :
    (id : Text) (s : TransactionManager) (pid epoch pid' epoch' : ℕ)
    → (init_transactional_producer id s).0 ≡ ok (pid, epoch)
    → let s' = (init_transactional_producer id s).1 in
      (init_transactional_producer id s').0 ≡ ok (pid', epoch')
      → let s'' = (init_transactional_producer id s').1 in
        (validate_transactional_producer id pid' epoch' s'' ≡ ok tt)
        × (validate_transactional_producer id pid epoch s'' ≡ err fenced)
init_twice_fences id s pid epoch pid' epoch' h h' =
    let s' = (init_transactional_producer id s).1 in
    let stored = init_stores id s pid epoch h in
    let raised = init_raises id s' _ pid' epoch' stored h' in
    let (now_valid, others, _) = init_fences id s' pid' epoch' h' in
    (now_valid, rw raised.0 at (others epoch (omega (arith, raised.1))))
