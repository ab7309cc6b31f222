-- ===== src/Server/Share/Leases/Kept.antt =====
-- server/share/partition.rs: leases and their timers, over each method.
use bifrox.Prelude.{
  ℕ, ◌+◌, ◌%◌, ◌^◌, ◌≡◌, refl, inl, inr, false, ◌&&◌, Option, List, [], ◌∷◌, map, ◌==◌, All,
  Bool-cases,
}
use bifrox.Prelude.Text.{Text}
use bifrox.Server.Share.Batches.{
  ShareRecordState, available, acquired, acknowledged, archived, InFlightBatch, is_acquired,
  is_available, is_terminal, keys_where, meets, visit, advance,
}
use bifrox.Server.Share.Batches.Tiling.{Tiled}
use bifrox.Server.Share.Batches.Passes.{visit-Tiled}
use bifrox.Server.Share.Timers
use bifrox.Server.Share.Timers.{ExpiryTimer, insert_timer-InOrder, remove_timer-InOrder}
use bifrox.Server.Share.Partition.{
  SharePartition, Sweep, new, restore_batches, restored_state, restore, snapshot, sweep_loop,
  advance_watermark, sweep_timers_internal, sweep_timers_inline, first_expired, check_lock_timeouts,
}
use bifrox.Server.Share.Partition.Acknowledge.{AckBatch, Acking, ack_batch, ack_all, acknowledge}
use bifrox.Server.Share.Partition.Acquire.{
  Fetch, Acquiring, acquire_batch, acquire_fresh, register_timers, or_default, acquire_after_sweep,
  acquire_records,
}
use bifrox.Server.Share.Partition.Order.{InOrder, IsTiled, ack_batch-Divides, sweep_inline-IsTiled}
use bifrox.Server.Share.Partition.Restart.{restart, released, restart-released}
use bifrox.Server.Share.Partition.Operations.{
  Operation, acquires, acknowledges, checks, restarts, IsProper, apply, apply_all, apply-IsTiled,
}
use bifrox.Server.Share.Leases.{Timed, AllTimed, ack_visit-AllTimed}
use bifrox.Server.Share.Leases.Ordered.{sweep_loop-InOrder, ack_batch-InOrder, visit_keeps}
use bifrox.Server.Share.Leases.Sweeps.{sweep_loop-AllTimed}
use bifrox.Server.Share.Leases.Grants.{Covered, acquire_visit-All, acquire_fresh-All}
use bifrox.Server.Share.Leases.Registered.{register_timers-InOrder, covered-Timed}

-- Every lease has its timer, and the timers stand in the order in which they expire.
abbrev pub IsTimed : SharePartition → Type 0
IsTimed s = AllTimed s.timers s.batches × Timers.InOrder s.timers

pub advance-All :
    (P : InFlightBatch → Type 0) (start : ℕ) (bs : List InFlightBatch)
    → All P bs
    → All P (advance start bs).1
unfolding advance
advance-All P start [] h = h
advance-All P start (b ∷ bs) (h, hs) =
    let rest = advance-All P ((b.last_offset + 1) % 2 ^ 64) bs hs in
    elim (Bool-cases (b.first_offset == start && is_terminal b.state)) [
      | inl e ↦ rw e rest
      | inr e ↦ rw e (h, hs)
    ]

pub sweep-IsTimed :
    (now : ℕ) (s : SharePartition) → IsTiled s → IsTimed s → IsTimed (sweep_timers_internal now s).1
unfolding sweep_timers_internal advance_watermark
sweep-IsTimed now s (h, small) (timed, order) =
    let begin : Sweep = record { dlq_offsets = []; mutated = false } in
    let (ts, bs, w) = sweep_loop now s.max_delivery_attempts s.timers (s.batches, begin) in
    (
      advance-All (Timed ts) s.start_offset bs (
          sweep_loop-AllTimed now s.max_delivery_attempts s.start_offset s.next_fetch_offset
            s.timers s.batches begin h timed),
      sweep_loop-InOrder now s.max_delivery_attempts s.timers s.batches begin order,
    )

sweep_inline-IsTimed :
    (now : ℕ) (s : SharePartition) → IsTiled s → IsTimed s → IsTimed (sweep_timers_inline now s)
unfolding sweep_timers_inline
sweep_inline-IsTimed now s h t = elim (Bool-cases (first_expired now s.timers)) [
  | inl e ↦ rw e (sweep-IsTimed now s h t)
  | inr e ↦ rw e t
]

ack_all-Timed :
    (member : Text) (now attempts lo hi : ℕ) (acks : List AckBatch) (bs : List InFlightBatch)
    (a : Acking)
    → InOrder acks
    → Tiled lo hi bs
    → AllTimed a.timers bs × Timers.InOrder a.timers
    → let r = ack_all member now attempts acks (bs, a) in
      AllTimed r.1.timers r.0 × Timers.InOrder r.1.timers
unfolding ack_all
ack_all-Timed member now attempts lo hi [] bs a o h t = t
ack_all-Timed member now attempts lo hi (ack ∷ acks) bs a (o, os) h (timed, order) =
    let f = ack_batch member now attempts ack in
    let p = meets ack.first_offset ack.last_offset in
    let v = visit f (keys_where p bs) (bs, a) in
    ack_all-Timed member now attempts lo hi acks v.0 v.1 os
      (visit-Tiled p f lo hi bs a (ack_batch-Divides member now attempts ack o) h)
      (
        ack_visit-AllTimed member now attempts lo hi ack bs a o h timed,
        visit_keeps (λ x. Timers.InOrder x.timers) f (ack_batch-InOrder member now attempts ack)
            (keys_where p bs) bs a order,
      )

acknowledge-IsTimed :
    (member : Text) (acks : List AckBatch) (now : ℕ) (s : SharePartition)
    → InOrder acks
    → IsTiled s
    → IsTimed s
    → IsTimed (acknowledge member acks now s).1
unfolding acknowledge advance_watermark
acknowledge-IsTimed member acks now s o (h, small) t =
    let begin : Acking = record { timers = s.timers; dlq_offsets = []; mutated = false } in
    let (bs, a) = ack_all member now s.max_delivery_attempts acks (s.batches, begin) in
    let (timed, order) =
      ack_all-Timed member now s.max_delivery_attempts s.start_offset s.next_fetch_offset acks
        s.batches begin o h t in
    (advance-All (Timed a.timers) s.start_offset bs timed, order)

timed_covered :
    (member : Text) (now timeout : ℕ) (ts : List ExpiryTimer) (a : Acquiring)
    (bs : List InFlightBatch)
    → AllTimed ts bs
    → All (Covered member now timeout ts a) bs
timed_covered member now timeout ts a [] h = tt
timed_covered member now timeout ts a (b ∷ bs) (h, hs) =
    (inl h, timed_covered member now timeout ts a bs hs)

covered-AllTimed :
    (member : Text) (now timeout : ℕ) (ts : List ExpiryTimer) (a : Acquiring)
    (bs : List InFlightBatch)
    → All (Covered member now timeout ts a) bs
    → AllTimed (register_timers (now + timeout) member a.new_acquired_ranges ts) bs
covered-AllTimed member now timeout ts a [] h = tt
covered-AllTimed member now timeout ts a (b ∷ bs) (h, hs) =
    (covered-Timed member now timeout ts a b h, covered-AllTimed member now timeout ts a bs hs)

acquire_after_sweep-IsTimed :
    (member : Text) (max_records timeout : ℕ) (fetch : Fetch) (now : ℕ) (s : SharePartition)
    → IsTiled s
    → IsTimed s
    → IsTimed (acquire_after_sweep member max_records timeout fetch now s).1
acquire_after_sweep-IsTimed member max_records timeout fetch now s (h, small) (timed, order) =
    let begin : Acquiring = record { acquired_infos = []; new_acquired_ranges = [] } in
    let v =
      visit (acquire_batch member now timeout max_records fetch)
        (keys_where (λ b. is_available b.state) s.batches) (s.batches, begin) in
    let r = acquire_fresh member now timeout max_records fetch (s.next_fetch_offset, v.0, v.1) in
    (
      covered-AllTimed member now timeout s.timers r.2 r.1 (
          acquire_fresh-All member now timeout max_records s.next_fetch_offset s.timers fetch v.0
            v.1
            (acquire_visit-All member now timeout max_records s.start_offset s.next_fetch_offset
              s.timers fetch s.batches begin h
              (timed_covered member now timeout s.timers begin s.batches timed))),
      register_timers-InOrder (now + timeout) member r.2.new_acquired_ranges s.timers order,
    )

acquire-IsTimed :
    (member : Text) (max_records : ℕ) (timeout : Option ℕ) (fetch : Fetch) (now : ℕ)
    (s : SharePartition)
    → IsTiled s
    → IsTimed s
    → IsTimed (acquire_records member max_records timeout fetch now s).1
unfolding acquire_records
acquire-IsTimed member max_records timeout fetch now s h t = elim (Bool-cases (max_records == 0)) [
  | inl e ↦ rw e t
  | inr e ↦ rw e (
      acquire_after_sweep-IsTimed member max_records (or_default timeout s.default_lock_timeout)
        fetch now (sweep_timers_inline now s) (sweep_inline-IsTiled now s h)
        (sweep_inline-IsTimed now s h t))
]

restored_not_acquired : (state : ShareRecordState) → is_acquired (restored_state state) ≡ false
restored_not_acquired available = refl
restored_not_acquired acquired = refl
restored_not_acquired acknowledged = refl
restored_not_acquired archived = refl

released-Timed :
    (timeout : ℕ) (ts : List ExpiryTimer) (bs : List InFlightBatch)
    → AllTimed ts (map (released timeout) bs)
released-Timed timeout ts [] = tt
released-Timed timeout ts (b ∷ bs) =
    ((λ l. cc (l, restored_not_acquired b.state)), released-Timed timeout ts bs)

restart_timers : (s : SharePartition) → (restart s).timers ≡ []
unfolding restart restore snapshot
restart_timers s = refl

restart-IsTimed : (s : SharePartition) → IsTiled s → IsTimed (restart s)
restart-IsTimed s h =
    rw ((restart-released s h).0, restart_timers s)
      (released-Timed s.default_lock_timeout [] s.batches, tt)

apply-IsTimed :
    (op : Operation) (s : SharePartition)
    → IsProper op
    → IsTiled s
    → IsTimed s
    → IsTimed (apply op s)
unfolding apply check_lock_timeouts
apply-IsTimed (acquires member max_records timeout fetch now) s p h t =
    acquire-IsTimed member max_records timeout fetch now s h t
apply-IsTimed (acknowledges member acks now) s p h t = acknowledge-IsTimed member acks now s p h t
apply-IsTimed (checks now) s p h t = sweep-IsTimed now s h t
apply-IsTimed restarts s p h t = restart-IsTimed s h

pub apply_all-IsTimed :
    (ops : List Operation) (s : SharePartition)
    → All IsProper ops
    → IsTiled s
    → IsTimed s
    → IsTiled (apply_all ops s) × IsTimed (apply_all ops s)
unfolding apply_all
apply_all-IsTimed [] s p h t = (h, t)
apply_all-IsTimed (op ∷ ops) s (p, ps) h t =
    apply_all-IsTimed ops (apply op s) ps (apply-IsTiled op s p h) (apply-IsTimed op s p h t)

pub new-IsTimed :
    (topic : Text) (partition : ℕ) (group : Text) (timeout attempts start : ℕ)
    → IsTimed (new topic partition group timeout attempts start)
unfolding new restore restore_batches
new-IsTimed topic partition group timeout attempts start = (tt, tt)
