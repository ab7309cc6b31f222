-- ===== src/Server/Share/Tests.antt =====
-- A share partition of six records with two members.
use bifrox.Prelude.{
  ℕ, ◌+◌, ◌^◌, ◌≤◌, ◌<◌, ◌≡◌, ◌≢◌, refl, sym, ap, subst, inl, Option, none, some, List, [], ◌∷◌,
  leb, retain, All, All-retain, Occurs, arith, true,
}
use bifrox.Prelude.Text.{Text, same_text}
use bifrox.Server.Share.Batches.{
  available, acquired, is_available, is_terminal, InFlightBatch, find, insert, remove, insert_all,
  keys_where, visit, advance,
}
use bifrox.Server.Share.Timers.{compare_texts, compare_timers, insert_timer, remove_timer}
use bifrox.Server.Share.Partition.{
  SharePartition, new, restore, restore_batches, expire_batch, sweep_loop, advance_watermark,
  sweep_timers_internal, sweep_timers_inline, check_lock_timeouts,
}
use bifrox.Server.Share.Partition.Acknowledge.{AckBatch, accept, ack_batch, ack_all, acknowledge}
use bifrox.Server.Share.Partition.Acquire.{
  Fetch, last_of, acquire_fresh, register_timers, acquire_records,
}
use bifrox.Server.Share.Partition.Order.{IsTiled}
use bifrox.Server.Share.Partition.Fetched.{IsLog, Increasing, Increasing-retain}
use bifrox.Server.Share.Partition.Operations.{
  Operation, acquires, acknowledges, IsProper, apply, apply_all, HoldsOffset, apply_all-IsTiled,
  new-IsTiled, one_batch_per_offset,
}
use bifrox.Server.Share.Partition.Cells.{Holding, cell}
use bifrox.Server.Share.Partition.Acknowledged.{acked, acknowledge-cell}
use bifrox.Server.Share.Leases.Expiry.{no_lease_outlives}
use bifrox.Server.Share.Partition.Inverted.{acknowledge-Inverted}
use bifrox.Server.Share.Attempts.Ceiling.{IsMethod, delivery_count_at_most}

abbrev alice : Text
alice = 97 ∷ []

abbrev bob : Text
bob = 98 ∷ []

abbrev records : List ℕ
records = 10 ∷ 11 ∷ 12 ∷ 13 ∷ 14 ∷ 15 ∷ []

abbrev log : Fetch
log from = some (retain (leb from) records)

abbrev frames_of : Option (List ℕ) → List ℕ
frames_of none = []
frames_of (some frames) = frames

abbrev GoodFrames : List ℕ → Type 0
GoodFrames frames = Increasing frames × All (λ o. o + 1 < 2 ^ 64) frames

records-Increasing : Increasing records
records-Increasing = omega arith

log-IsLog : IsLog log
log-IsLog from frames h = subst GoodFrames (ap frames_of h) (
  Increasing-retain (leb from) records records-Increasing,
  All-retain (λ o. o + 1 < 2 ^ 64) (leb from) records (omega arith),
)

abbrev ack : ℕ → ℕ → AckBatch
ack first last = record { first_offset = first; last_offset = last; ack_type = accept }

abbrev fetched : Operation
fetched = acquires alice 6 none log 0

abbrev partly_acked : Operation
partly_acked = acknowledges alice (ack 10 11 ∷ []) 5

abbrev history : List Operation
history = fetched ∷ partly_acked ∷ []

history-IsProper : All IsProper history
history-IsProper = (log-IsLog, ((omega arith, tt), tt))

history-IsMethod : All IsMethod history
history-IsMethod = (tt, (tt, tt))

abbrev first : SharePartition
first = new [] 0 [] 100 3 10

abbrev later : SharePartition
later = apply_all history first

abbrev lease_of : ℕ → ℕ → InFlightBatch
lease_of from to = record {
  first_offset = from;
  last_offset = to;
  state = acquired;
  acquired_by = some alice;
  acquired_at = some 0;
  lock_timeout = 100;
  delivery_count = 1;
}

later-batches : later.batches ≡ lease_of 12 15 ∷ []
unfolding apply_all apply new restore restore_batches acquire_records sweep_timers_inline visit
    keys_where acquire_fresh last_of insert register_timers insert_timer acknowledge ack_all
    ack_batch find remove insert_all remove_timer compare_timers compare_texts advance_watermark
    advance same_text
later-batches = refl

held : Occurs (lease_of 12 15) later.batches
held = subst (λ bs. Occurs (lease_of 12 15) bs) (sym later-batches) (inl refl)

one_batch_per_offset_example :
    (lease_of 12 15 ≡ lease_of 12 15) × (later.start_offset ≤ 13) × (13 < later.next_fetch_offset)
one_batch_per_offset_example =
    one_batch_per_offset history [] 0 [] 100 3 10 (omega arith) history-IsProper 13 (lease_of 12 15)
      (lease_of 12 15) held held (omega arith) (omega arith)

delivery_count_at_most_example : (1 ≤ 3) × (is_available acquired ≡ true → 1 < 3)
delivery_count_at_most_example =
    delivery_count_at_most history [] 0 [] 100 3 10 (omega arith) (omega arith) (omega arith)
      history-IsProper history-IsMethod (lease_of 12 15) held

checked : Occurs (lease_of 12 15) (check_lock_timeouts 50 later).1.batches
unfolding apply_all apply new restore restore_batches acquire_records sweep_timers_inline visit
    keys_where acquire_fresh last_of insert register_timers insert_timer acknowledge ack_all
    ack_batch find remove insert_all remove_timer compare_timers compare_texts advance_watermark
    advance check_lock_timeouts sweep_timers_internal sweep_loop same_text
checked = inl refl

no_lease_outlives_example :
    (owner : Text) × (at : ℕ) × (some alice ≡ some owner) × (some 0 ≡ some at) × (50 < at + 100)
no_lease_outlives_example =
    no_lease_outlives history [] 0 [] 100 3 10 50 (omega arith) history-IsProper (lease_of 12 15)
      checked refl

-- At the timeout the lease is gone.
expired :
    (check_lock_timeouts 100 later).1.batches
    ≡ record (lease_of 12 15) { state = available; acquired_by = none; acquired_at = none } ∷ []
unfolding apply_all apply new restore restore_batches acquire_records sweep_timers_inline visit
    keys_where acquire_fresh last_of insert register_timers insert_timer acknowledge ack_all
    ack_batch find remove insert_all remove_timer compare_timers compare_texts advance_watermark
    advance check_lock_timeouts sweep_timers_internal sweep_loop expire_batch same_text
expired = refl

abbrev given : SharePartition
given = apply_all (fetched ∷ []) first

given-IsTiled : IsTiled given
given-IsTiled =
    apply_all-IsTiled (fetched ∷ []) first (log-IsLog, tt)
      (new-IsTiled [] 0 [] 100 3 10 (omega arith))

given-start : given.start_offset ≤ 10
unfolding apply_all apply new restore restore_batches acquire_records sweep_timers_inline
    acquire_fresh
given-start = omega arith

acknowledge-cell_example :
    let s' = (acknowledge alice (ack 10 11 ∷ []) 5 given).1 in
    let c = acked alice 5 given.max_delivery_attempts (ack 10 11 ∷ []) 10 (cell 10 given.batches) in
    (s'.start_offset ≤ 10 → cell 10 s'.batches ≡ c)
    × (10 < s'.start_offset → (h : Holding) × (c ≡ some h) × (is_terminal h.state ≡ true))
acknowledge-cell_example =
    acknowledge-cell alice (ack 10 11 ∷ []) 5 given (omega arith, tt) given-IsTiled 10 given-start

abbrev inverted : AckBatch
inverted = record { first_offset = 14; last_offset = 11; ack_type = accept }

given-batches : given.batches ≡ lease_of 10 15 ∷ []
unfolding apply_all apply new restore restore_batches acquire_records sweep_timers_inline visit
    keys_where acquire_fresh last_of insert
given-batches = refl

acknowledge-Inverted_example :
    let s' = (acknowledge alice (inverted ∷ []) 5 given).1 in
    (c d : InFlightBatch) × Occurs c s'.batches
    × Occurs d s'.batches
    × (c ≢ d)
    × HoldsOffset 12 c
    × HoldsOffset 12 d
unfolding same_text
acknowledge-Inverted_example =
    acknowledge-Inverted alice inverted 5 given (lease_of 10 15) given-batches refl (omega arith)
      (omega arith) (omega arith)
