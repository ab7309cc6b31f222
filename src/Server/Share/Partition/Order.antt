-- ===== src/Server/Share/Partition/Order.antt =====
-- server/share/partition.rs: the order of the batches, in each method but `acquire_records`.
use bifrox.Prelude.{
  ℕ, ◌+◌, ◌%◌, ◌^◌, ◌≤◌, ◌<◌, ◌≡◌, Bool, ◌&&◌, List, [], ◌∷◌, ltb, ◌==◌, All, inl, inr, Bool-cases,
  arith,
}
use bifrox.Prelude.Text.{Text}
use bifrox.Server.Share.Batches.{is_terminal, InFlightBatch, keys_where, meets, visit, advance}
use bifrox.Server.Share.Batches.Tiling.{Tiled, Tiled-bound}
use bifrox.Server.Share.Batches.Passes.{Divides, visit-Tiled}
use bifrox.Server.Share.Timers.{ExpiryTimer}
use bifrox.Server.Share.Partition.{
  SharePartition, Sweep, expire_batch, sweep_loop, advance_watermark, sweep_timers_internal,
  sweep_timers_inline, first_expired,
}
use bifrox.Server.Share.Partition.Acknowledge.{AckBatch, Acking, ack_batch, ack_all, acknowledge}
use bifrox.Server.Share.Partition.Acquire.{Fetch, acquire_batch}

pub expire_batch-Divides :
    (now attempts : ℕ) (t : ExpiryTimer) (p : InFlightBatch → Bool)
    → Divides p (expire_batch now attempts t)
unfolding expire_batch
expire_batch-Divides now attempts t p b s g e = ground arith

pub ack_batch-Divides :
    (member : Text) (now attempts : ℕ) (ack : AckBatch)
    → ack.first_offset ≤ ack.last_offset
    → Divides (meets ack.first_offset ack.last_offset) (ack_batch member now attempts ack)
unfolding ack_batch
ack_batch-Divides member now attempts ack ordered b s g e = ground arith

pub acquire_batch-Divides :
    (member : Text) (now timeout max_records : ℕ) (fetch : Fetch) (p : InFlightBatch → Bool)
    → Divides p (acquire_batch member now timeout max_records fetch)
unfolding acquire_batch
acquire_batch-Divides member now timeout max_records fetch p b s g e = ground arith

abbrev pub IsTiled : SharePartition → Type 0
IsTiled s = Tiled s.start_offset s.next_fetch_offset s.batches × (s.next_fetch_offset < 2 ^ 64)

advance-Tiled :
    (start hi : ℕ) (bs : List InFlightBatch)
    → hi < 2 ^ 64
    → Tiled start hi bs
    → Tiled (advance start bs).0 hi (advance start bs).1
unfolding advance
advance-Tiled start hi [] small h = h
advance-Tiled start hi (b ∷ bs) small (l, g, r) =
    let bound = Tiled-bound (b.last_offset + 1) hi bs r in
    let no_wrap : (b.last_offset + 1) % 2 ^ 64 ≡ b.last_offset + 1 = omega arith in
    elim (Bool-cases (b.first_offset == start && is_terminal b.state)) [
      | inl e ↦ rw (e, no_wrap) (advance-Tiled (b.last_offset + 1) hi bs small r)
      | inr e ↦ rw e (l, g, r)
    ]

pub sweep_loop-Tiled :
    (now attempts lo hi : ℕ) (ts : List ExpiryTimer) (bs : List InFlightBatch) (w : Sweep)
    → Tiled lo hi bs
    → Tiled lo hi (sweep_loop now attempts ts (bs, w)).1
unfolding sweep_loop
sweep_loop-Tiled now attempts lo hi [] bs w h = h
sweep_loop-Tiled now attempts lo hi (t ∷ ts) bs w h =
    let f = expire_batch now attempts t in
    let p = meets t.first_offset t.last_offset in
    let v = visit f (keys_where p bs) (bs, w) in
    elim (Bool-cases (ltb now t.expire_at)) [
      | inl e ↦ rw e h
      | inr e ↦ rw e (
          sweep_loop-Tiled now attempts lo hi ts v.0 v.1
            (visit-Tiled p f lo hi bs w (expire_batch-Divides now attempts t p) h))
    ]

pub sweep-IsTiled :
    (now : ℕ) (s : SharePartition) → IsTiled s → IsTiled (sweep_timers_internal now s).1
unfolding sweep_timers_internal advance_watermark
sweep-IsTiled now s (h, small) = (
  advance-Tiled s.start_offset s.next_fetch_offset _ small (
      sweep_loop-Tiled now s.max_delivery_attempts s.start_offset s.next_fetch_offset s.timers
        s.batches _ h),
  small,
)

pub sweep_inline-IsTiled :
    (now : ℕ) (s : SharePartition) → IsTiled s → IsTiled (sweep_timers_inline now s)
unfolding sweep_timers_inline
sweep_inline-IsTiled now s h = elim (Bool-cases (first_expired now s.timers)) [
  | inl e ↦ rw e (sweep-IsTiled now s h)
  | inr e ↦ rw e h
]

-- An acknowledged range ends where it begins or later.
abbrev pub InOrder : List AckBatch → Type 0
InOrder acks = All (λ ack. ack.first_offset ≤ ack.last_offset) acks

pub ack_all-Tiled :
    (member : Text) (now attempts lo hi : ℕ) (acks : List AckBatch) (bs : List InFlightBatch)
    (a : Acking)
    → InOrder acks
    → Tiled lo hi bs
    → Tiled lo hi (ack_all member now attempts acks (bs, a)).0
unfolding ack_all
ack_all-Tiled member now attempts lo hi [] bs a o h = h
ack_all-Tiled member now attempts lo hi (ack ∷ acks) bs a (o, os) h =
    let f = ack_batch member now attempts ack in
    let p = meets ack.first_offset ack.last_offset in
    let v = visit f (keys_where p bs) (bs, a) in
    ack_all-Tiled member now attempts lo hi acks v.0 v.1 os
      (visit-Tiled p f lo hi bs a (ack_batch-Divides member now attempts ack o) h)

pub acknowledge-IsTiled :
    (member : Text) (acks : List AckBatch) (now : ℕ) (s : SharePartition)
    → InOrder acks
    → IsTiled s
    → IsTiled (acknowledge member acks now s).1
unfolding acknowledge advance_watermark
acknowledge-IsTiled member acks now s o (h, small) = (
  advance-Tiled s.start_offset s.next_fetch_offset _ small (
      ack_all-Tiled member now s.max_delivery_attempts s.start_offset s.next_fetch_offset acks
        s.batches _ o h),
  small,
)
