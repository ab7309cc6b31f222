-- ===== src/Server/Share/Partition.antt =====
-- server/share/partition.rs: `SharePartition`. A method holds the locks of the batches and the timers
-- over all that it does, so it is one step; `acquire_records` sweeps before it takes them, which is
-- the first part of its step. `Instant::now()` is the argument `now`. `fetch` of the partition
-- manager gives the offsets of the records from an offset on, or fails; what else a record holds is
-- only passed on. Offsets are 64 bits and delivery counts 16 bits wide.
pub mod Acknowledge
pub mod Acquire
pub mod Order
pub mod Fetched
pub mod Restart
pub mod Operations
pub mod Cells
pub mod Acknowledged
pub mod Inverted
use bifrox.Prelude.{
  ℕ, zero, suc, ◌+◌, ◌-◌, ◌%◌, ◌^◌, Bool, true, false, not, ◌&&◌, ◌||◌, Option, none, some, List,
  [], ◌∷◌, ◌++◌, map, ltb, leb, ◌==◌, if◌then◌else◌, length, take, retain,
}
use Prim.Native.Nat.{min, max}
use bifrox.Prelude.Text.{Text, same_text}
use bifrox.Server.Share.Batches.{
  ShareRecordState, available, acquired, acknowledged, archived, is_available, is_acquired,
  InFlightBatch, insert, keys_where, meets, visit, advance,
}
use bifrox.Server.Share.Timers.{ExpiryTimer, insert_timer, remove_timer}

pub record PersistedBatch : Type 0 where
  pub first_offset : ℕ
  pub last_offset : ℕ
  pub state : ShareRecordState
  pub delivery_count : ℕ

pub record SharePartition : Type 0 where
  pub topic : Text
  pub partition : ℕ
  pub group_id : Text
  pub default_lock_timeout : ℕ
  pub max_delivery_attempts : ℕ
  pub start_offset : ℕ
  pub next_fetch_offset : ℕ
  pub batches : List InFlightBatch
  pub timers : List ExpiryTimer
  pub state_version : ℕ

abbrev pub restored_state : ShareRecordState → ShareRecordState
restored_state acquired = available
restored_state state = state

abbrev pub restored : ℕ → PersistedBatch → InFlightBatch
restored timeout pb = record {
  first_offset = pb.first_offset;
  last_offset = pb.last_offset;
  state = restored_state pb.state;
  acquired_by = none;
  acquired_at = none;
  lock_timeout = timeout;
  delivery_count = pb.delivery_count;
}

-- The next offset to fetch, and the batches.
unfoldable pub restore_batches :
    ℕ → List PersistedBatch → ℕ × List InFlightBatch → ℕ × List InFlightBatch
restore_batches timeout [] (next, bs) = (next, bs)
restore_batches timeout (pb ∷ pbs) (next, bs) =
    restore_batches timeout pbs
      (max next ((pb.last_offset + 1) % 2 ^ 64), insert (restored timeout pb) bs)

unfoldable pub restore : Text → ℕ → Text → ℕ → ℕ → ℕ → List PersistedBatch → SharePartition
restore topic partition group_id timeout attempts start_offset persisted =
    let (next, bs) = restore_batches timeout persisted (start_offset, []) in
    record {
      topic = topic;
      partition = partition;
      group_id = group_id;
      default_lock_timeout = timeout;
      max_delivery_attempts = attempts;
      start_offset = start_offset;
      next_fetch_offset = next;
      batches = bs;
      timers = [];
      state_version = 0;
    }

unfoldable pub new : Text → ℕ → Text → ℕ → ℕ → ℕ → SharePartition
unfolding restore
new topic partition group_id timeout attempts start_offset =
    restore topic partition group_id timeout attempts start_offset []

abbrev pub persisted : InFlightBatch → PersistedBatch
persisted b = record {
  first_offset = b.first_offset;
  last_offset = b.last_offset;
  state = b.state;
  delivery_count = b.delivery_count;
}

unfoldable pub snapshot : SharePartition → ℕ × List PersistedBatch
snapshot s = (s.start_offset, map persisted s.batches)

abbrev pub owned_by : Text → Option Text → Bool
owned_by member none = false
owned_by member (some owner) = same_text owner member

-- A lease that `member` holds.
abbrev pub is_lease_of : Text → InFlightBatch → Bool
is_lease_of member b = is_acquired b.state && owned_by member b.acquired_by

-- The offsets from `first` to `last`.
unfoldable pub offsets_from : ℕ → ℕ → List ℕ
offsets_from first zero = []
offsets_from first (suc n) = first ∷ offsets_from (first + 1) n

abbrev pub offset_range : ℕ → ℕ → List ℕ
offset_range first last = offsets_from first (last + 1 - first)

-- What a loop adds up beside the batches.
pub record Sweep : Type 0 where
  pub dlq_offsets : List ℕ
  pub mutated : Bool

abbrev pub let_go : ShareRecordState → InFlightBatch → InFlightBatch
let_go state b = record b { state = state; acquired_by = none; acquired_at = none }

abbrev pub lapse : ℕ → InFlightBatch → Sweep → List InFlightBatch × Sweep
lapse attempts b s =
    if leb attempts b.delivery_count
    then (
      let_go archived b ∷ [],
      record {
        dlq_offsets = s.dlq_offsets ++ offset_range b.first_offset b.last_offset;
        mutated = true;
      },
    )
    else (let_go available b ∷ [], record s { mutated = true })

abbrev pub has_lapsed : ℕ → InFlightBatch → Option ℕ → Bool
has_lapsed now b none = false
has_lapsed now b (some at) = leb b.lock_timeout (now - at)

unfoldable pub expire_batch :
    ℕ → ℕ → ExpiryTimer → InFlightBatch → Sweep → List InFlightBatch × Sweep
expire_batch now attempts timer b s =
    if is_lease_of timer.member_id b && has_lapsed now b b.acquired_at
    then lapse attempts b s
    else (b ∷ [], s)

-- Timers are taken from the front until one has not expired; the timers that are left come first.
unfoldable pub sweep_loop :
    ℕ
    → ℕ
    → List ExpiryTimer
    → List InFlightBatch × Sweep
    → List ExpiryTimer × List InFlightBatch × Sweep
sweep_loop now attempts [] (bs, s) = ([], bs, s)
sweep_loop now attempts (t ∷ ts) (bs, s) =
    let rest = sweep_loop now attempts ts (
      visit (expire_batch now attempts t) (keys_where (meets t.first_offset t.last_offset) bs)
        (bs, s)) in
    if ltb now t.expire_at then (t ∷ ts, bs, s) else rest

abbrev pub bump : Bool → ℕ → ℕ
bump mutated version = if mutated then (version + 1) % 2 ^ 64 else version

unfoldable pub advance_watermark : SharePartition → SharePartition
advance_watermark s =
    let (start, bs) = advance s.start_offset s.batches in
    record s { start_offset = start; batches = bs }

unfoldable pub sweep_timers_internal : ℕ → SharePartition → List ℕ × SharePartition
sweep_timers_internal now s =
    let (ts, bs, w) =
      sweep_loop now s.max_delivery_attempts s.timers
        (s.batches, record { dlq_offsets = []; mutated = false }) in
    let s' = advance_watermark (record s { timers = ts; batches = bs }) in
    (w.dlq_offsets, record s' { state_version = bump w.mutated s'.state_version })

abbrev pub first_expired : ℕ → List ExpiryTimer → Bool
first_expired now [] = false
first_expired now (t ∷ ts) = leb t.expire_at now

unfoldable pub sweep_timers_inline : ℕ → SharePartition → SharePartition
sweep_timers_inline now s =
    if first_expired now s.timers then (sweep_timers_internal now s).1 else s

unfoldable pub check_lock_timeouts : ℕ → SharePartition → List ℕ × SharePartition
check_lock_timeouts now s = sweep_timers_internal now s
