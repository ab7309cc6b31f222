-- ===== src/Server/Share/Attempts/Ceiling.antt =====
-- server/share/partition.rs: the delivery counts of the batches, over any sequence of methods.
use bifrox.Prelude.{
  ℕ, ◌-◌, ◌^◌, ◌≤◌, ◌<◌, ◌≡◌, refl, inl, inr, Bool, true, Option, List, [], ◌∷◌, ltb, ◌==◌, length,
  All, All-Occurs, Occurs, Bool-cases, arith,
}
use bifrox.Prelude.Text.{Text}
use bifrox.Server.Share.Batches.{InFlightBatch, is_available, keys_where, meets, visit}
use bifrox.Server.Share.Batches.Tiling.{Tiled}
use bifrox.Server.Share.Batches.Passes.{visit-Tiled}
use bifrox.Server.Share.Timers.{ExpiryTimer}
use bifrox.Server.Share.Partition.{
  SharePartition, Sweep, expire_batch, sweep_loop, new, restore, restore_batches, advance_watermark,
  sweep_timers_internal, sweep_timers_inline, first_expired, check_lock_timeouts,
}
use bifrox.Server.Share.Partition.Acknowledge.{AckBatch, Acking, ack_batch, ack_all, acknowledge}
use bifrox.Server.Share.Partition.Acquire.{
  Fetch, Acquiring, acquire_batch, last_of, take_fresh, fresh_lease, valid_frames, acquire_fresh,
  or_default, acquire_records,
}
use bifrox.Server.Share.Partition.Order.{
  InOrder, IsTiled, ack_batch-Divides, expire_batch-Divides, acquire_batch-Divides,
  sweep_inline-IsTiled,
}
use bifrox.Server.Share.Partition.Operations.{
  Operation, acquires, acknowledges, checks, restarts, IsProper, apply, apply_all, apply-IsTiled,
  new-IsTiled,
}
use bifrox.Server.Share.Leases.Grants.{All-insert}
use bifrox.Server.Share.Leases.Kept.{advance-All}
use bifrox.Server.Share.Attempts.{Spent, visit-Spent, expire-Spent, ack-Spent, acquire-Spent}

-- The ceiling, and that every batch is within it.
abbrev IsSpent : ℕ → SharePartition → Type 0
IsSpent attempts s = (s.max_delivery_attempts ≡ attempts) × All (Spent attempts) s.batches

sweep_loop-Spent :
    (now attempts lo hi : ℕ) (ts : List ExpiryTimer) (bs : List InFlightBatch) (w : Sweep)
    → Tiled lo hi bs
    → All (Spent attempts) bs
    → All (Spent attempts) (sweep_loop now attempts ts (bs, w)).1
unfolding sweep_loop
sweep_loop-Spent now attempts lo hi [] bs w tiled h = h
sweep_loop-Spent now attempts lo hi (t ∷ ts) bs w tiled h =
    let f = expire_batch now attempts t in
    let p = meets t.first_offset t.last_offset in
    let v = visit f (keys_where p bs) (bs, w) in
    let divides = expire_batch-Divides now attempts t p in
    elim (Bool-cases (ltb now t.expire_at)) [
      | inl e ↦ rw e h
      | inr e ↦ rw e (
          sweep_loop-Spent now attempts lo hi ts v.0 v.1 (visit-Tiled p f lo hi bs w divides tiled)
            (visit-Spent attempts lo hi p f bs w divides (expire-Spent now attempts t) tiled h))
    ]

sweep-IsSpent :
    (now attempts : ℕ) (s : SharePartition)
    → IsTiled s
    → IsSpent attempts s
    → IsSpent attempts (sweep_timers_internal now s).1
unfolding sweep_timers_internal advance_watermark
sweep-IsSpent now attempts s (h, small) (e, q) = (
  e,
  rw e (
      advance-All (Spent attempts) s.start_offset _ (
        sweep_loop-Spent now attempts s.start_offset s.next_fetch_offset s.timers s.batches _ h q)),
)

sweep_inline-IsSpent :
    (now attempts : ℕ) (s : SharePartition)
    → IsTiled s
    → IsSpent attempts s
    → IsSpent attempts (sweep_timers_inline now s)
unfolding sweep_timers_inline
sweep_inline-IsSpent now attempts s h q = elim (Bool-cases (first_expired now s.timers)) [
  | inl e ↦ rw e (sweep-IsSpent now attempts s h q)
  | inr e ↦ rw e q
]

ack_all-Spent :
    (member : Text) (now attempts lo hi : ℕ) (acks : List AckBatch) (bs : List InFlightBatch)
    (a : Acking)
    → 0 < attempts
    → InOrder acks
    → Tiled lo hi bs
    → All (Spent attempts) bs
    → All (Spent attempts) (ack_all member now attempts acks (bs, a)).0
unfolding ack_all
ack_all-Spent member now attempts lo hi [] bs a pos o tiled h = h
ack_all-Spent member now attempts lo hi (ack ∷ acks) bs a pos (o, os) tiled h =
    let f = ack_batch member now attempts ack in
    let p = meets ack.first_offset ack.last_offset in
    let v = visit f (keys_where p bs) (bs, a) in
    let divides = ack_batch-Divides member now attempts ack o in
    ack_all-Spent member now attempts lo hi acks v.0 v.1 pos os
      (visit-Tiled p f lo hi bs a divides tiled)
      (visit-Spent attempts lo hi p f bs a divides
        (λ b x. ack-Spent member now attempts ack b x pos) tiled h)

acknowledge-IsSpent :
    (member : Text) (acks : List AckBatch) (now attempts : ℕ) (s : SharePartition)
    → 0 < attempts
    → InOrder acks
    → IsTiled s
    → IsSpent attempts s
    → IsSpent attempts (acknowledge member acks now s).1
unfolding acknowledge advance_watermark
acknowledge-IsSpent member acks now attempts s pos o (h, small) (e, q) = (
  e,
  rw e (
      advance-All (Spent attempts) s.start_offset _ (
        ack_all-Spent member now attempts s.start_offset s.next_fetch_offset acks s.batches _ pos o
          h q)),
)

take_fresh-Spent :
    (member : Text) (now timeout next attempts : ℕ) (os : List ℕ) (bs : List InFlightBatch)
    (a : Acquiring)
    → 0 < attempts
    → All (Spent attempts) bs
    → All (Spent attempts) (take_fresh member now timeout os (next, bs, a)).1
take_fresh-Spent member now timeout next attempts [] bs a pos h = h
take_fresh-Spent member now timeout next attempts (o ∷ os) bs a pos h =
    All-insert (Spent attempts) (fresh_lease member now timeout o (last_of o os)) bs
      (omega arith, (λ l. cc l)) h

acquire_fresh-Spent :
    (member : Text) (now timeout max_records next attempts : ℕ) (fetch : Fetch)
    (bs : List InFlightBatch) (a : Acquiring)
    → 0 < attempts
    → All (Spent attempts) bs
    → All (Spent attempts) (acquire_fresh member now timeout max_records fetch (next, bs, a)).1
unfolding acquire_fresh
acquire_fresh-Spent member now timeout max_records next attempts fetch bs a pos h =
    let needed = max_records - length a.acquired_infos in
    elim (Bool-cases (ltb (length a.acquired_infos) max_records)) [
      | inl e ↦ rw e (
          take_fresh-Spent member now timeout next attempts (valid_frames next needed (fetch next))
            bs a pos h)
      | inr e ↦ rw e h
    ]

acquire-IsSpent :
    (member : Text) (max_records : ℕ) (timeout : Option ℕ) (fetch : Fetch) (now attempts : ℕ)
    (s : SharePartition)
    → 0 < attempts
    → attempts < 2 ^ 16
    → IsTiled s
    → IsSpent attempts s
    → IsSpent attempts (acquire_records member max_records timeout fetch now s).1
unfolding acquire_records
acquire-IsSpent member max_records timeout fetch now attempts s pos small h q =
    let w = or_default timeout s.default_lock_timeout in
    let s' = sweep_timers_inline now s in
    let (tiled, _) = sweep_inline-IsTiled now s h in
    let (e', spent) = sweep_inline-IsSpent now attempts s h q in
    let f = acquire_batch member now w max_records fetch in
    let p : InFlightBatch → Bool = λ b. is_available b.state in
    let begin : Acquiring = record { acquired_infos = []; new_acquired_ranges = [] } in
    let v = visit f (keys_where p s'.batches) (s'.batches, begin) in
    elim (Bool-cases (max_records == 0)) [
      | inl e ↦ rw e q
      | inr e ↦ rw e (
        e',
        acquire_fresh-Spent member now w max_records s'.next_fetch_offset attempts fetch v.0 v.1 pos
            (visit-Spent attempts s'.start_offset s'.next_fetch_offset p f s'.batches begin
              (acquire_batch-Divides member now w max_records fetch p)
              (λ b a. acquire-Spent member now w max_records attempts fetch b a small) tiled spent),
      )
    ]

-- Not a restart.
abbrev pub IsMethod : Operation → Type 0
IsMethod restarts = ⊥
IsMethod _ = Unit

apply-IsSpent :
    (op : Operation) (attempts : ℕ) (s : SharePartition)
    → 0 < attempts
    → attempts < 2 ^ 16
    → IsProper op
    → IsMethod op
    → IsTiled s
    → IsSpent attempts s
    → IsSpent attempts (apply op s)
unfolding apply check_lock_timeouts
apply-IsSpent (acquires member max_records timeout fetch now) attempts s pos small p m h q =
    acquire-IsSpent member max_records timeout fetch now attempts s pos small h q
apply-IsSpent (acknowledges member acks now) attempts s pos small p m h q =
    acknowledge-IsSpent member acks now attempts s pos p h q
apply-IsSpent (checks now) attempts s pos small p m h q = sweep-IsSpent now attempts s h q
apply-IsSpent restarts attempts s pos small p m h q = absurd m

apply_all-IsSpent :
    (ops : List Operation) (attempts : ℕ) (s : SharePartition)
    → 0 < attempts
    → attempts < 2 ^ 16
    → All IsProper ops
    → All IsMethod ops
    → IsTiled s
    → IsSpent attempts s
    → IsSpent attempts (apply_all ops s)
unfolding apply_all
apply_all-IsSpent [] attempts s pos small ps ms h q = q
apply_all-IsSpent (op ∷ ops) attempts s pos small (p, ps) (m, ms) h q =
    apply_all-IsSpent ops attempts (apply op s) pos small ps ms (apply-IsTiled op s p h)
      (apply-IsSpent op attempts s pos small p m h q)

new-IsSpent :
    (topic : Text) (partition : ℕ) (group : Text) (timeout attempts start : ℕ)
    → IsSpent attempts (new topic partition group timeout attempts start)
unfolding new restore restore_batches
new-IsSpent topic partition group timeout attempts start = (refl, tt)

-- Where the ceiling of deliveries is at least one and fits 16 bits, after any sequence of
-- methods without a restart on a new partition, where the log gives its records in order and no
-- acknowledged range ends before it begins: the delivery count of a batch is at most the
-- ceiling, and below it where the batch is available. A yield takes the count of its delivery
-- back, so this is no bound on how often a record is delivered.
pub delivery_count_at_most :
    (ops : List Operation) (topic : Text) (partition : ℕ) (group : Text)
    (timeout attempts start : ℕ)
    → 0 < attempts
    → attempts < 2 ^ 16
    → start < 2 ^ 64
    → All IsProper ops
    → All IsMethod ops
    → let s = apply_all ops (new topic partition group timeout attempts start) in
      (b : InFlightBatch)
      → Occurs b s.batches
      → (b.delivery_count ≤ attempts) × (is_available b.state ≡ true → b.delivery_count < attempts)
delivery_count_at_most ops topic partition group timeout attempts start pos small fits proper
      methods =
    let first = new topic partition group timeout attempts start in
    let s = apply_all ops first in
    let q =
      apply_all-IsSpent ops attempts first pos small proper methods
        (new-IsTiled topic partition group timeout attempts start fits)
        (new-IsSpent topic partition group timeout attempts start) in
    λ b m. All-Occurs (Spent attempts) b s.batches q.1 m
