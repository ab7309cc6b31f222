-- ===== src/Server/Share/Partition/Acquire.antt =====
-- server/share/partition.rs: `acquire_records`.
use bifrox.Prelude.{
  ℕ, ◌+◌, ◌-◌, ◌%◌, ◌^◌, Bool, true, false, not, ◌&&◌, Option, none, some, List, [], ◌∷◌, ◌++◌, leb,
  ltb, ◌==◌, if◌then◌else◌, length, map, take, retain, ◌||◌,
}
use bifrox.Prelude.Text.{Text}
use bifrox.Server.Share.Batches.{
  available, acquired, is_available, InFlightBatch, insert, keys_where, visit,
}
use bifrox.Server.Share.Timers.{ExpiryTimer, insert_timer}
use bifrox.Server.Share.Partition.{SharePartition, let_go, bump, sweep_timers_inline}

pub record AcquiredRecordInfo : Type 0 where
  pub offset : ℕ
  pub delivery_count : ℕ

-- The offsets of the records from an offset on; `none` is an error.
abbrev pub Fetch : Type 0
Fetch = ℕ → Option (List ℕ)

-- What the loop adds up beside the batches: the records, and the ranges that get a timer.
pub record Acquiring : Type 0 where
  pub acquired_infos : List AcquiredRecordInfo
  pub new_acquired_ranges : List (ℕ × ℕ)

unfoldable pub infos_within : ℕ → ℕ → ℕ → List ℕ → List AcquiredRecordInfo
infos_within first last count [] = []
infos_within first last count (o ∷ os) =
    let rest = infos_within first last count os in
    if leb first o && leb o last then record { offset = o; delivery_count = count } ∷ rest else rest

abbrev pub infos_of : ℕ → ℕ → ℕ → Option (List ℕ) → List AcquiredRecordInfo
infos_of first last count none = []
infos_of first last count (some frames) = infos_within first last count frames

abbrev pub lease : Text → ℕ → ℕ → InFlightBatch → InFlightBatch
lease member now timeout b = record b {
  state = acquired;
  acquired_by = some member;
  acquired_at = some now;
  lock_timeout = timeout;
  delivery_count = (b.delivery_count + 1) % 2 ^ 16;
}

-- A leased batch with its records, and what goes back beside it.
abbrev pub take_lease :
    Fetch → InFlightBatch → List InFlightBatch → Acquiring → List InFlightBatch × Acquiring
take_lease fetch b others a = (
  b ∷ others,
  record {
    acquired_infos =
        a.acquired_infos
        ++ infos_of b.first_offset b.last_offset b.delivery_count (fetch b.first_offset);
    new_acquired_ranges = a.new_acquired_ranges ++ ((b.first_offset, b.last_offset) ∷ []);
  },
)

-- The last offset of the part that is taken.
abbrev pub split_offset : InFlightBatch → ℕ → ℕ
split_offset b needed = b.first_offset + needed - 1

-- Wraps around as 64 bits do where the batch ends before it begins.
abbrev pub batch_len : InFlightBatch → ℕ
batch_len b = (b.last_offset + 1 + 2 ^ 64 - b.first_offset) % 2 ^ 64

-- The loop's `break` at enough records leaves the later batches as they are.
unfoldable pub acquire_batch :
    Text → ℕ → ℕ → ℕ → Fetch → InFlightBatch → Acquiring → List InFlightBatch × Acquiring
acquire_batch member now timeout max_records fetch b a =
    let needed = max_records - length a.acquired_infos in
    if leb max_records (length a.acquired_infos) || not (is_available b.state)
    then (b ∷ [], a)
    else if leb (batch_len b) needed
    then take_lease fetch (lease member now timeout b) [] a
    else take_lease fetch
        (lease member now timeout (record b { last_offset = split_offset b needed }))
        (let_go available (record b { first_offset = split_offset b needed + 1 }) ∷ []) a

unfoldable pub last_of : ℕ → List ℕ → ℕ
last_of o [] = o
last_of o (o' ∷ os) = last_of o' os

abbrev pub fresh_lease : Text → ℕ → ℕ → ℕ → ℕ → InFlightBatch
fresh_lease member now timeout first last = record {
  first_offset = first;
  last_offset = last;
  state = acquired;
  acquired_by = some member;
  acquired_at = some now;
  lock_timeout = timeout;
  delivery_count = 1;
}

-- The next offset to fetch, the batches and the loop's sums, after the valid fresh records.
abbrev pub take_fresh :
    Text → ℕ → ℕ → List ℕ → ℕ × List InFlightBatch × Acquiring → ℕ × List InFlightBatch × Acquiring
take_fresh member now timeout [] (next, bs, a) = (next, bs, a)
take_fresh member now timeout (o ∷ os) (next, bs, a) =
    let last = last_of o os in
    (
      (last + 1) % 2 ^ 64,
      insert (fresh_lease member now timeout o last) bs,
      record {
        acquired_infos =
            a.acquired_infos ++ map (λ off. record { offset = off; delivery_count = 1 }) (o ∷ os);
        new_acquired_ranges = a.new_acquired_ranges ++ ((o, last) ∷ []);
      },
    )

abbrev pub valid_frames : ℕ → ℕ → Option (List ℕ) → List ℕ
valid_frames next needed none = []
valid_frames next needed (some frames) = take needed (retain (leb next) frames)

unfoldable pub acquire_fresh :
    Text
    → ℕ
    → ℕ
    → ℕ
    → Fetch
    → ℕ × List InFlightBatch × Acquiring
    → ℕ × List InFlightBatch × Acquiring
acquire_fresh member now timeout max_records fetch (next, bs, a) =
    let needed = max_records - length a.acquired_infos in
    if ltb (length a.acquired_infos) max_records
    then take_fresh member now timeout (valid_frames next needed (fetch next)) (next, bs, a)
    else (next, bs, a)

unfoldable pub register_timers : ℕ → Text → List (ℕ × ℕ) → List ExpiryTimer → List ExpiryTimer
register_timers expire_at member [] ts = ts
register_timers expire_at member ((first, last) ∷ ranges) ts =
    register_timers expire_at member ranges (
      insert_timer
        (record {
          expire_at = expire_at;
          first_offset = first;
          last_offset = last;
          member_id = member;
        })
        ts)

abbrev pub null : {A : Type 0} → List A → Bool
null [] = true
null (x ∷ xs) = false

abbrev pub or_default : Option ℕ → ℕ → ℕ
or_default none d = d
or_default (some t) d = t

abbrev pub acquire_after_sweep :
    Text → ℕ → ℕ → Fetch → ℕ → SharePartition → List AcquiredRecordInfo × SharePartition
acquire_after_sweep member max_records timeout fetch now s =
    let (bs, a) =
      visit (acquire_batch member now timeout max_records fetch)
        (keys_where (λ b. is_available b.state) s.batches)
        (s.batches, record { acquired_infos = []; new_acquired_ranges = [] }) in
    let (next, bs', a') =
      acquire_fresh member now timeout max_records fetch (s.next_fetch_offset, bs, a) in
    (
      a'.acquired_infos,
      record s {
        batches = bs';
        next_fetch_offset = next;
        timers = register_timers (now + timeout) member a'.new_acquired_ranges s.timers;
        state_version = bump (not (null a'.new_acquired_ranges)) s.state_version;
      },
    )

unfoldable pub acquire_records :
    Text → ℕ → Option ℕ → Fetch → ℕ → SharePartition → List AcquiredRecordInfo × SharePartition
acquire_records member max_records lock_timeout fetch now s =
    if max_records == 0
    then ([], s)
    else acquire_after_sweep member max_records (or_default lock_timeout s.default_lock_timeout)
        fetch now (sweep_timers_inline now s)
