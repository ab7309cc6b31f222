-- ===== src/Server/Transaction/Sequences.antt =====
-- server/transaction.rs: the sequence numbers of idempotent producers, and their eviction.
use Prim.Native.Nat.{min}
use mathlib.Core.Bool.{true≢false}
use bifrox.Prelude.{
  ℕ, ◌+◌, ◌%◌, ◌^◌, ◌≡◌, ◌≢◌, refl, sym, ap, ◌∙◌, inl, inr, Bool, true, false, not, ◌&&◌, ◌||◌,
  Option, none, some, List, [], ◌∷◌, leb, ◌==◌, if◌then◌else◌, length, nat_key, arith, Occurs,
}
use bifrox.Prelude.Text.{Text}
use bifrox.Prelude.Table
use bifrox.Prelude.Table.{Table, get-insert, get-remove}
use bifrox.Server.Transaction.{
  TransactionState, TransactionManager, ProducerSequenceEntry, is_terminal,
}

abbrev pub max_producer_sequences : ℕ
max_producer_sequences = 100000

abbrev pub sequence_evict_batch : ℕ
sequence_evict_batch = 1000

-- The standard library's `select_nth_unstable_by_key` at `take - 1`, and then the first `take`: some
-- `take` of the candidates, which are pairs of a recency tick and a producer.
abbrev pub Select : Type 0
Select = ℕ → List (ℕ × ℕ) → List (ℕ × ℕ)

-- It returns candidates only.
abbrev pub SelectsCandidates : Select → Type 0
SelectsCandidates select =
    (n : ℕ) (l : List (ℕ × ℕ)) (p : ℕ × ℕ) → Occurs p (select n l) → Occurs p l

unfoldable pub is_duplicate : ℕ → ℕ → TransactionManager → Bool
is_duplicate producer_id seq_num s =
    if producer_id == 0 then false else elim (Table.get producer_id s.producer_sequences) [
      | none ↦ false
      | some entry ↦ leb seq_num entry.last_sequence
    ]

-- Whether a transaction in flight belongs to the producer.
unfoldable pub is_protected : ℕ → Table Text TransactionState → Bool
is_protected producer_id [] = false
is_protected producer_id ((id, state) ∷ m) =
    not (is_terminal state.status) && state.producer_id == producer_id || is_protected producer_id m

unfoldable pub eviction_candidates :
    Table Text TransactionState → Table ℕ ProducerSequenceEntry → List (ℕ × ℕ)
eviction_candidates txns [] = []
eviction_candidates txns ((producer_id, entry) ∷ m) =
    let rest = eviction_candidates txns m in
    if is_protected producer_id txns then rest else (entry.last_used, producer_id) ∷ rest

unfoldable pub remove_evicted :
    List (ℕ × ℕ) → Table ℕ ProducerSequenceEntry → Table ℕ ProducerSequenceEntry
remove_evicted [] m = m
remove_evicted ((last_used, producer_id) ∷ l) m = remove_evicted l (Table.remove producer_id m)

-- With no candidate there is nothing to select from.
unfoldable pub selected : Select → ℕ → List (ℕ × ℕ) → List (ℕ × ℕ)
selected select count [] = []
selected select count (c ∷ cs) = select (min count (length (c ∷ cs))) (c ∷ cs)

unfoldable pub evict_lru_sequences : Select → ℕ → TransactionManager → TransactionManager
evict_lru_sequences select count s = record s {
  producer_sequences =
      remove_evicted
        (selected select count (eviction_candidates s.transactions s.producer_sequences))
        s.producer_sequences;
}

abbrev pub is_known : Option ProducerSequenceEntry → Bool
is_known none = false
is_known (some e) = true

unfoldable pub make_room : Select → ℕ → TransactionManager → TransactionManager
make_room select producer_id s =
    if leb max_producer_sequences (length s.producer_sequences)
      && not (is_known (Table.get producer_id s.producer_sequences))
    then evict_lru_sequences select sequence_evict_batch s
    else s

unfoldable pub record_sequence : Select → ℕ → ℕ → TransactionManager → TransactionManager
record_sequence select producer_id seq_num s =
    if producer_id == 0
    then s
    else (let tick = s.sequence_clock in
        let s' = make_room select producer_id (record s { sequence_clock = (tick + 1) % 2 ^ 64 }) in
        record s' {
          producer_sequences =
              Table.insert producer_id (record { last_sequence = seq_num; last_used = tick })
                s'.producer_sequences;
        })

candidate_unprotected :
    (txns : Table Text TransactionState) (m : Table ℕ ProducerSequenceEntry) (p : ℕ × ℕ)
    → Occurs p (eviction_candidates txns m)
    → is_protected p.1 txns ≡ false
unfolding eviction_candidates
candidate_unprotected txns [] p h = absurd h
candidate_unprotected txns ((producer_id, entry) ∷ m) p h =
    go (is_protected producer_id txns) refl h (candidate_unprotected txns m p)
  where
    go :
        (b : Bool)
        → is_protected producer_id txns ≡ b
        → Occurs p (
            if b
            then eviction_candidates txns m
            else (entry.last_used, producer_id) ∷ eviction_candidates txns m)
        → (Occurs p (eviction_candidates txns m) → is_protected p.1 txns ≡ false)
        → is_protected p.1 txns ≡ false
    go true e h ih = ih h
    go false e (inl x) ih = rw x e
    go false e (inr x) ih = ih x

kept_after_eviction :
    (l : List (ℕ × ℕ)) (m : Table ℕ ProducerSequenceEntry) (j : ℕ)
    → ((p : ℕ × ℕ) → Occurs p l → p.1 ≢ j)
    → Table.get j (remove_evicted l m) ≡ Table.get j m
unfolding remove_evicted
kept_after_eviction [] m j h = refl
kept_after_eviction ((t, i) ∷ l) m j h =
    kept_after_eviction l (Table.remove i m) j (λ p x. h p (inr x))
    ∙ ground (arith, get-remove i j m, h (t, i) (inl refl))

selected_candidate :
    (select : Select) (count : ℕ) (l : List (ℕ × ℕ)) (p : ℕ × ℕ)
    → SelectsCandidates select
    → Occurs p (selected select count l)
    → Occurs p l
unfolding selected
selected_candidate select count [] p law m = absurd m
selected_candidate select count (c ∷ cs) p law m = law _ (c ∷ cs) p m

-- Eviction spares the producers of transactions in flight.
evict_spares :
    (select : Select) (count j : ℕ) (s : TransactionManager)
    → SelectsCandidates select
    → is_protected j s.transactions ≡ true
    → Table.get j (evict_lru_sequences select count s).producer_sequences
      ≡ Table.get j s.producer_sequences
unfolding evict_lru_sequences
evict_spares select count j s law safe =
    kept_after_eviction (selected select count candidates) s.producer_sequences j (λ p m e.
      true≢false (
        sym safe
        ∙ ap (λ i. is_protected i s.transactions) (sym e)
        ∙ candidate_unprotected s.transactions s.producer_sequences p
            (selected_candidate select count candidates p law m)))
  where
    candidates : List (ℕ × ℕ)
    candidates = eviction_candidates s.transactions s.producer_sequences

make_room_spares :
    (select : Select) (producer_id j : ℕ) (s : TransactionManager)
    → SelectsCandidates select
    → is_protected j s.transactions ≡ true
    → Table.get j (make_room select producer_id s).producer_sequences
      ≡ Table.get j s.producer_sequences
unfolding make_room
make_room_spares select producer_id j s law safe =
    ground (arith, evict_spares select sequence_evict_batch j s law safe)

-- After a sequence number is recorded for a producer other than 0, exactly the numbers up to it are
-- duplicates of that producer, whatever was evicted; and for every other producer that has a
-- transaction in flight the duplicates are what they were, if the selection returns candidates only.
pub is_duplicate-record_sequence :
    (select : Select) (producer_id seq_num : ℕ) (s : TransactionManager)
    → SelectsCandidates select
    → producer_id ≢ 0
    → let s' = record_sequence select producer_id seq_num s in
      ((q : ℕ) → is_duplicate producer_id q s' ≡ leb q seq_num)
      × ((j q : ℕ)
          → j ≢ producer_id
          → is_protected j s.transactions ≡ true
          → is_duplicate j q s' ≡ is_duplicate j q s)
unfolding is_duplicate record_sequence
is_duplicate-record_sequence select producer_id seq_num s law nonzero =
    let ticked = record s { sequence_clock = (s.sequence_clock + 1) % 2 ^ 64 } in
    let room = make_room select producer_id ticked in
    let entry : ProducerSequenceEntry = record {
      last_sequence = seq_num;
      last_used = s.sequence_clock;
    } in
    (
      (λ q.
          ground
            (arith, nonzero, get-insert producer_id producer_id entry room.producer_sequences)),
      (λ j q differ safe. ground (
        arith,
        nonzero,
        differ,
        get-insert producer_id j entry room.producer_sequences,
        make_room_spares select producer_id j ticked law safe,
      )),
    )
