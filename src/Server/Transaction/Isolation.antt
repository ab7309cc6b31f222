-- ===== src/Server/Transaction/Isolation.antt =====
-- The last stable offset never passes a transaction that is in flight.
pub mod Operations
use bifrox.Prelude.{
  ℕ, ◌≡◌, ◌≢◌, refl, sym, ap, ◌∙◌, subst, ◌⊎◌, inl, inr, Bool, true, false, not, ◌&&◌, ◌||◌, Option,
  none, some, List, [], ◌∷◌, ◌≤◌, ◌==◌, ==_iff, if◌then◌else◌, All, Bool-cases, Key, nat_key, arith,
  Occurs, All-Occurs,
}
use bifrox.Prelude.Text.{Text, same_text, same_text_iff, text_key}
use bifrox.Prelude.Table
use bifrox.Prelude.Table.{Table, get-insert, get-remove}
use bifrox.Server.Transaction.Lso.{
  TopicPartition, LsoIndex, u64_max, same_partition, same_partition_iff, pin_lso, unpin_lso, pinned,
  last_stable_offset, last_stable_offset-le,
}
use bifrox.Server.Transaction.Pins.{pinned-pin_lso, pinned-unpin_lso}
use bifrox.Server.Transaction.{
  TxStatus, is_terminal, PartitionRange, TransactionState, TransactionManager, TxResult, ok, err,
  pin_all, unpin_all, publish, commit_change, transition,
}

-- Every known start of these ranges is held back for the transaction.
abbrev pub HeldBack : Text → LsoIndex → PartitionRange → Type 0
HeldBack id index r = r.start_offset ≢ u64_max → pinned r.partition r.start_offset id index ≡ true

pub record IsPinned (s : TransactionManager) : Type 0 where
  pub held :
      (id : Text) (st : TransactionState)
      → Table.get id s.transactions ≡ some st
      → is_terminal st.status ≡ false
      → All (HeldBack id s.lso_index) st.partitions

pub pinned-pin_all :
    (k : TopicPartition) (o : ℕ) (i id : Text) (rs : List PartitionRange) (index : LsoIndex)
    → pinned k o i index ≡ true
    → pinned k o i (pin_all id rs index) ≡ true
unfolding pin_all
pinned-pin_all k o i id [] index h = h
pinned-pin_all k o i id (r ∷ rs) index h =
    pinned-pin_all k o i id rs _
      (ground (arith, pinned-pin_lso r.partition k r.start_offset o id i index))

pub pin_all-HeldBack :
    (id : Text) (rs : List PartitionRange) (index : LsoIndex)
    → All (HeldBack id (pin_all id rs index)) rs
unfolding pin_all
pin_all-HeldBack id [] index = tt
pin_all-HeldBack id (r ∷ rs) index = (
  (λ known. pinned-pin_all r.partition r.start_offset id id rs _ (
      ground (
        arith,
        known,
        pinned-pin_lso r.partition r.partition r.start_offset r.start_offset id id index,
        same_partition_iff r.partition r.partition,
        same_text_iff id id,
      ))),
  pin_all-HeldBack id rs _,
)

pub pinned-unpin_all :
    (k : TopicPartition) (o : ℕ) (i id : Text) (rs : List PartitionRange) (index : LsoIndex)
    → same_text id i ≡ false
    → pinned k o i (unpin_all id rs index) ≡ pinned k o i index
unfolding unpin_all
pinned-unpin_all k o i id [] index h = refl
pinned-unpin_all k o i id (r ∷ rs) index h =
    pinned-unpin_all k o i id rs _ h
    ∙ ground (arith, pinned-unpin_lso r.partition k r.start_offset o id i index)

pub All-HeldBack-map :
    (id : Text) (index index' : LsoIndex) (rs : List PartitionRange)
    → ((k : TopicPartition) (o : ℕ) → pinned k o id index ≡ true → pinned k o id index' ≡ true)
    → All (HeldBack id index) rs
    → All (HeldBack id index') rs
All-HeldBack-map id index index' [] f h = tt
All-HeldBack-map id index index' (r ∷ rs) f (h, hs) =
    ((λ known. f r.partition r.start_offset (h known)), All-HeldBack-map id index index' rs f hs)

-- A state is put at `id`, and the pins of all others stay: what is left is the new state's own.
pub insert-IsPinned :
    (s : TransactionManager) (id : Text) (next : TransactionState) (index : LsoIndex)
    → IsPinned s
    → ((k : TopicPartition) (o : ℕ) (j : Text)
        → same_text id j ≡ false
        → pinned k o j s.lso_index ≡ true
        → pinned k o j index ≡ true)
    → (is_terminal next.status ≡ false → All (HeldBack id index) next.partitions)
    → IsPinned (record s { transactions = Table.insert id next s.transactions; lso_index = index })
insert-IsPinned s id next index p others own = record {
  held = λ j st e live.
      go j st live (same_text id j) refl (sym (get-insert id j next s.transactions) ∙ e);
}
  where
    go :
        (j : Text) (st : TransactionState)
        → is_terminal st.status ≡ false
        → (b : Bool) → same_text id j ≡ b
        → (if same_text id j then some next else Table.get j s.transactions) ≡ some st
        → All (HeldBack j index) st.partitions
    go j st live true e h =
        let same : id ≡ j = (same_text_iff id j).0 e in
        let is_next : next ≡ st = ground (arith, e, h) in
        subst (λ x. All (HeldBack j index) x.partitions) is_next
          (subst (λ x. All (HeldBack x index) next.partitions) same (own (rw (← is_next) at live)))
    go j st live false e h =
        All-HeldBack-map j s.lso_index index st.partitions (λ k o. others k o j e)
          (p.held j st (rw e at h) live)

pub publish-IsPinned :
    (s : TransactionManager) (id : Text) (next : TransactionState)
    → IsPinned s
    → IsPinned (publish id next s)
publish-IsPinned s id next p =
    insert-IsPinned s id next (pin_all id next.partitions s.lso_index) p
      (λ k o j _ h. pinned-pin_all k o j id next.partitions s.lso_index h)
      (λ _. pin_all-HeldBack id next.partitions s.lso_index)

commit_change-IsPinned :
    (persist : TransactionState → Bool) (id : Text) (r : TxResult TransactionState)
    (s : TransactionManager)
    → IsPinned s
    → IsPinned (commit_change persist id r s).1
commit_change-IsPinned persist id (err e) s p = p
commit_change-IsPinned persist id (ok next) s p = elim (Bool-cases (persist next)) [
  | inl e ↦ rw e (publish-IsPinned s id next p)
  | inr e ↦ rw e p
]

pub transition-IsPinned :
    (id : Text) (change : Option TransactionState → TxResult TransactionState)
    (persist : TransactionState → Bool) (s : TransactionManager)
    → IsPinned s
    → IsPinned (transition id change persist s).1
unfolding transition
transition-IsPinned id change persist s p =
    commit_change-IsPinned persist id (change (Table.get id s.transactions)) s p

-- A consumer that reads below the last stable offset sees nothing of a transaction in flight.
pub in_flight_bound :
    (s : TransactionManager) (id : Text) (st : TransactionState) (r : PartitionRange)
    → IsPinned s
    → Table.get id s.transactions ≡ some st
    → is_terminal st.status ≡ false
    → Occurs r st.partitions
    → r.start_offset ≢ u64_max
    → last_stable_offset r.partition s.lso_index ≤ r.start_offset
in_flight_bound s id st r p e live m known =
    last_stable_offset-le r.partition r.start_offset id s.lso_index
      (All-Occurs (HeldBack id s.lso_index) r st.partitions (p.held id st e live) m known)
