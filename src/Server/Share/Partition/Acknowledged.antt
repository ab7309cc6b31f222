-- ===== src/Server/Share/Partition/Acknowledged.antt =====
-- server/share/partition.rs: `acknowledge`, offset by offset.
use bifrox.Prelude.{
  ℕ, ◌≤◌, ◌<◌, ◌≡◌, refl, sym, ap, ◌∙◌, true, false, ◌&&◌, Option, some, List, [], ◌∷◌, leb,
  if◌then◌else◌, arith,
}
use bifrox.Prelude.Text.{Text}
use bifrox.Server.Share.Batches.{InFlightBatch, is_acquired, is_terminal, meets, keys_where, visit}
use bifrox.Server.Share.Batches.Tiling.{Tiled}
use bifrox.Server.Share.Batches.Passes.{visit-Tiled}
use bifrox.Server.Share.Partition.{SharePartition, owned_by, advance_watermark}
use bifrox.Server.Share.Partition.Acknowledge.{
  AckBatch, AcknowledgeType, Acking, ack_state, ack_count, owner_after, time_after, ack_batch,
  ack_all, acknowledge,
}
use bifrox.Server.Share.Partition.Order.{InOrder, IsTiled, ack_batch-Divides, ack_all-Tiled}
use bifrox.Server.Share.Partition.Cells.{Holding, cell, changed, ActsAs, visit-cell, advance-cell}

-- An acknowledgement of one offset: a lease of the member is resolved, renewed or handed back, and
-- anything else is left as it is.
unfoldable pub ack_holding : Text → ℕ → ℕ → AcknowledgeType → Holding → Holding
ack_holding member now attempts type h =
    let state = ack_state attempts type h.delivery_count in
    if is_acquired h.state && owned_by member h.acquired_by
    then record {
      state = state;
      acquired_by = owner_after state member;
      acquired_at = time_after state now;
      lock_timeout = h.lock_timeout;
      delivery_count = ack_count type h.delivery_count;
    }
    else h

abbrev pub ack_at : Text → ℕ → ℕ → AckBatch → ℕ → Holding → Holding
ack_at member now attempts ack o h =
    if leb ack.first_offset o && leb o ack.last_offset
    then ack_holding member now attempts ack.ack_type h
    else h

-- The acknowledgements that cover the offset, one after the other.
unfoldable pub acked : Text → ℕ → ℕ → List AckBatch → ℕ → Option Holding → Option Holding
acked member now attempts [] o c = c
acked member now attempts (ack ∷ acks) o c =
    acked member now attempts acks o (changed (ack_at member now attempts ack o) c)

ack_batch-ActsAs :
    (member : Text) (now attempts : ℕ) (ack : AckBatch) (o : ℕ)
    → ActsAs
        (meets ack.first_offset ack.last_offset)
        (ack_batch member now attempts ack)
        o
        (ack_at member now attempts ack o)
unfolding ack_batch ack_holding cell
ack_batch-ActsAs member now attempts ack o b s le = ((λ e. ground arith), (λ e i. ground arith))

ack_all-cell :
    (member : Text) (now attempts o lo hi : ℕ) (acks : List AckBatch) (bs : List InFlightBatch)
    (a : Acking)
    → InOrder acks
    → Tiled lo hi bs
    → cell o (ack_all member now attempts acks (bs, a)).0
      ≡ acked member now attempts acks o (cell o bs)
unfolding ack_all acked
ack_all-cell member now attempts o lo hi [] bs a ordered h = refl
ack_all-cell member now attempts o lo hi (ack ∷ acks) bs a (k, ks) h =
    let f = ack_batch member now attempts ack in
    let p = meets ack.first_offset ack.last_offset in
    let v = visit f (keys_where p bs) (bs, a) in
    let divides = ack_batch-Divides member now attempts ack k in
    ack_all-cell member now attempts o lo hi acks v.0 v.1 ks (visit-Tiled p f lo hi bs a divides h)
    ∙ ap (acked member now attempts acks o) (
        visit-cell p f o lo hi (ack_at member now attempts ack o) bs a divides
          (ack_batch-ActsAs member now attempts ack o) h)

-- In a partition whose batches lie one behind the other from the watermark up to a next offset
-- to fetch below 2^64, acknowledging ranges, none of which ends before it begins, does to each
-- offset from the watermark on what the acknowledgements that cover it do one after the other:
-- they change a lease of the member and nothing else. The new watermark has passed the offset
-- only if it is resolved, and where it has not, this is what the partition holds for the offset.
pub acknowledge-cell :
    (member : Text) (acks : List AckBatch) (now : ℕ) (s : SharePartition)
    → InOrder acks
    → IsTiled s
    → let s' = (acknowledge member acks now s).1 in
      (o : ℕ)
      → s.start_offset ≤ o
      → let c = acked member now s.max_delivery_attempts acks o (cell o s.batches) in
        (s'.start_offset ≤ o → cell o s'.batches ≡ c)
        × (o < s'.start_offset → (h : Holding) × (c ≡ some h) × (is_terminal h.state ≡ true))
unfolding acknowledge advance_watermark
acknowledge-cell member acks now s ordered (tiled, small) =
    let attempts = s.max_delivery_attempts in
    let begin : Acking = record { timers = s.timers; dlq_offsets = []; mutated = false } in
    let bs = (ack_all member now attempts acks (s.batches, begin)).0 in
    let lo = s.start_offset in
    let hi = s.next_fetch_offset in
    λ o le.
      let (same, passed) =
        advance-cell o lo hi bs small le
          (ack_all-Tiled member now attempts lo hi acks s.batches begin ordered tiled) in
      let e = ack_all-cell member now attempts o lo hi acks s.batches begin ordered tiled in
      ((λ ge. same ge ∙ e), (λ lt. let (h, k, t) = passed lt in (h, sym e ∙ k, t)))
