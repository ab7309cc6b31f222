-- ===== src/Server/Share/Partition/Acknowledge.antt =====
-- server/share/partition.rs: `acknowledge`.
use bifrox.Prelude.{
  ℕ, ◌+◌, ◌-◌, Bool, true, false, Option, none, some, List, [], ◌∷◌, ◌++◌, ltb, leb, if◌then◌else◌,
}
use Prim.Native.Nat.{min, max}
use bifrox.Prelude.Text.{Text}
use bifrox.Server.Share.Batches.{
  ShareRecordState, available, acquired, acknowledged, archived, is_acquired, InFlightBatch,
  keys_where, meets, visit,
}
use bifrox.Server.Share.Timers.{ExpiryTimer, insert_timer, remove_timer}
use bifrox.Server.Share.Partition.{
  SharePartition, is_lease_of, offset_range, bump, advance_watermark,
}

pub data AcknowledgeType : Type 0 where
  accept release reject renew yield : AcknowledgeType

pub record AckBatch : Type 0 where
  pub first_offset : ℕ
  pub last_offset : ℕ
  pub ack_type : AcknowledgeType

-- What the loop changes beside the batches.
pub record Acking : Type 0 where
  pub timers : List ExpiryTimer
  pub dlq_offsets : List ℕ
  pub mutated : Bool

abbrev pub ack_state : ℕ → AcknowledgeType → ℕ → ShareRecordState
ack_state attempts accept count = acknowledged
ack_state attempts release count = if leb attempts count then archived else available
ack_state attempts reject count = archived
ack_state attempts renew count = acquired
ack_state attempts yield count = available

abbrev pub ack_count : AcknowledgeType → ℕ → ℕ
ack_count yield count = count - 1
ack_count _ count = count

-- Only a release at the ceiling and a reject send the offsets to the dead letters.
abbrev pub is_dead : ℕ → AcknowledgeType → ℕ → Bool
is_dead attempts release count = leb attempts count
is_dead attempts reject count = true
is_dead attempts _ count = false

-- The timer of a lease, over a part of its range.
abbrev pub timer_of : Option ℕ → Option Text → ℕ → ℕ → ℕ → Option ExpiryTimer
timer_of (some at) (some owner) timeout first last = some (record {
  expire_at = at + timeout;
  first_offset = first;
  last_offset = last;
  member_id = owner;
})
timer_of at owner timeout first last = none

abbrev pub timer_over : InFlightBatch → ℕ → ℕ → Option ExpiryTimer
timer_over b first last = timer_of b.acquired_at b.acquired_by b.lock_timeout first last

abbrev pub cancel : Option ExpiryTimer → List ExpiryTimer → List ExpiryTimer
cancel none ts = ts
cancel (some t) ts = remove_timer t ts

abbrev pub arm : Option ExpiryTimer → List ExpiryTimer → List ExpiryTimer
arm none ts = ts
arm (some t) ts = insert_timer t ts

abbrev pub renewal : AcknowledgeType → ℕ → ℕ → ℕ → ℕ → Text → List ExpiryTimer → List ExpiryTimer
renewal renew now timeout first last member ts =
    insert_timer
      (record {
        expire_at = now + timeout;
        first_offset = first;
        last_offset = last;
        member_id = member;
      })
      ts
renewal _ now timeout first last member ts = ts

-- The three slices of a batch: before the overlap, the overlap, and behind it.
abbrev pub left_slice : InFlightBatch → ℕ → List InFlightBatch
left_slice b overlap_start =
    if ltb b.first_offset overlap_start
    then record b { last_offset = overlap_start - 1 } ∷ []
    else []

abbrev pub owner_after : ShareRecordState → Text → Option Text
owner_after state member = if is_acquired state then some member else none

abbrev pub time_after : ShareRecordState → ℕ → Option ℕ
time_after state now = if is_acquired state then some now else none

abbrev pub middle_slice : Text → ℕ → ℕ → AcknowledgeType → InFlightBatch → ℕ → ℕ → InFlightBatch
middle_slice member now attempts type b overlap_start overlap_end =
    let state = ack_state attempts type b.delivery_count in
    record {
      first_offset = overlap_start;
      last_offset = overlap_end;
      state = state;
      acquired_by = owner_after state member;
      acquired_at = time_after state now;
      lock_timeout = b.lock_timeout;
      delivery_count = ack_count type b.delivery_count;
    }

abbrev pub right_slice : InFlightBatch → ℕ → List InFlightBatch
right_slice b overlap_end =
    if ltb overlap_end b.last_offset then record b { first_offset = overlap_end + 1 } ∷ [] else []

abbrev pub slices : Text → ℕ → ℕ → AckBatch → InFlightBatch → List InFlightBatch
slices member now attempts ack b =
    let overlap_start = max b.first_offset ack.first_offset in
    let overlap_end = min b.last_offset ack.last_offset in
    left_slice b overlap_start
    ++ (middle_slice member now attempts ack.ack_type b overlap_start overlap_end
        ∷ right_slice b overlap_end)

abbrev pub retimed : Text → ℕ → AckBatch → InFlightBatch → List ExpiryTimer → List ExpiryTimer
retimed member now ack b ts =
    let overlap_start = max b.first_offset ack.first_offset in
    let overlap_end = min b.last_offset ack.last_offset in
    let ts1 = cancel (timer_over b b.first_offset b.last_offset) ts in
    let ts2 =
      if ltb b.first_offset overlap_start
      then arm (timer_over b b.first_offset (overlap_start - 1)) ts1
      else ts1 in
    let ts3 = renewal ack.ack_type now b.lock_timeout overlap_start overlap_end member ts2 in
    if ltb overlap_end b.last_offset
    then arm (timer_over b (overlap_end + 1) b.last_offset) ts3
    else ts3

abbrev pub dead_offsets : ℕ → AckBatch → InFlightBatch → List ℕ
dead_offsets attempts ack b =
    if is_dead attempts ack.ack_type b.delivery_count
    then offset_range (max b.first_offset ack.first_offset) (min b.last_offset ack.last_offset)
    else []

unfoldable pub ack_batch :
    Text → ℕ → ℕ → AckBatch → InFlightBatch → Acking → List InFlightBatch × Acking
ack_batch member now attempts ack b s =
    if is_lease_of member b
    then (
      slices member now attempts ack b,
      record {
        timers = retimed member now ack b s.timers;
        dlq_offsets = s.dlq_offsets ++ dead_offsets attempts ack b;
        mutated = true;
      },
    )
    else (b ∷ [], s)

unfoldable pub ack_all :
    Text → ℕ → ℕ → List AckBatch → List InFlightBatch × Acking → List InFlightBatch × Acking
ack_all member now attempts [] (bs, s) = (bs, s)
ack_all member now attempts (ack ∷ acks) (bs, s) = ack_all member now attempts acks (
    visit (ack_batch member now attempts ack)
      (keys_where (meets ack.first_offset ack.last_offset) bs) (bs, s))

unfoldable pub acknowledge : Text → List AckBatch → ℕ → SharePartition → List ℕ × SharePartition
acknowledge member acks now s =
    let (bs, a) =
      ack_all member now s.max_delivery_attempts acks
        (s.batches, record { timers = s.timers; dlq_offsets = []; mutated = false }) in
    let s' = advance_watermark (record s { batches = bs; timers = a.timers }) in
    (a.dlq_offsets, record s' { state_version = bump a.mutated s'.state_version })
