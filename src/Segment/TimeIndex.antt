-- ===== src/Segment/TimeIndex.antt =====
-- segment/timeindex.rs: `TimeIndexSegment`, from timestamps to offsets, with the file as in
-- `Segment.Index`.
pub mod Order
pub mod Lookup
use bifrox.Prelude.{
  ℕ, zero, suc, ◌/◌, Bool, true, false, Option, none, some, List, [], ◌∷◌, ◌++◌, ltb, length, take,
  drop, retain, get_elem?, map,
}
use Prim.Native.Nat.{max}
use bifrox.Prelude.Bytes.{be_bytes, of_be_bytes}
use bifrox.Segment.IndexFile.{Written, write_all, Rewritten, decode_all, rewrite}
use bifrox.Segment.Search.{Search, Found, found, missing}

pub record TimeIndexEntry : Type 0 where
  pub timestamp : ℕ
  pub logical_offset : ℕ

abbrev pub time_index_entry_size : ℕ
time_index_entry_size = 16

unfoldable pub encode : TimeIndexEntry → List ℕ
encode e = be_bytes 8 e.timestamp ++ be_bytes 8 e.logical_offset

unfoldable pub decode : List ℕ → TimeIndexEntry
decode bytes = record {
  timestamp = of_be_bytes (take 8 bytes);
  logical_offset = of_be_bytes (take 8 (drop 8 bytes));
}

pub record TimeIndexSegment : Type 0 where
  pub file : List ℕ
  pub entries : List TimeIndexEntry
  pub base_offset : ℕ

unfoldable pub open_file : List ℕ → ℕ → TimeIndexSegment
open_file file base_offset = record {
  file = file;
  entries = decode_all decode time_index_entry_size (length file / time_index_entry_size) file;
  base_offset = base_offset;
}

-- The timestamp stored for one that is given: not below the last one.
unfoldable pub monotonic_timestamp : ℕ → List TimeIndexEntry → ℕ
monotonic_timestamp timestamp [] = timestamp
monotonic_timestamp timestamp (e ∷ []) = max timestamp e.timestamp
monotonic_timestamp timestamp (e ∷ e' ∷ es) = monotonic_timestamp timestamp (e' ∷ es)

abbrev pub appended : Bool × List ℕ → TimeIndexEntry → TimeIndexSegment → Bool × TimeIndexSegment
appended (true, file) e s = (true, record s { file = file; entries = s.entries ++ (e ∷ []) })
appended (false, file) e s = (false, record s { file = file })

unfoldable pub append : Written → ℕ → ℕ → TimeIndexSegment → Bool × TimeIndexSegment
append w timestamp logical_offset s =
    let stored = monotonic_timestamp timestamp s.entries in
    let e : TimeIndexEntry = record { timestamp = stored; logical_offset = logical_offset } in
    appended (write_all w (encode e) s.file) e s

unfoldable pub truncate_after : Rewritten → ℕ → TimeIndexSegment → Bool × TimeIndexSegment
truncate_after w offset s =
    let kept = retain (λ e. ltb e.logical_offset offset) s.entries in
    let (ok, entries, file) = rewrite encode time_index_entry_size w kept (s.entries, s.file) in
    (ok, record s { file = file; entries = entries })

unfoldable pub max_timestamp : List TimeIndexEntry → Option ℕ
max_timestamp [] = none
max_timestamp (e ∷ es) =
    some (elim (max_timestamp es) [ none ↦ e.timestamp | some t ↦ max e.timestamp t ])

abbrev pub offset_at : Option TimeIndexEntry → Option ℕ
offset_at none = none
offset_at (some e) = some e.logical_offset

unfoldable pub nearest : Found → List TimeIndexEntry → Option ℕ
nearest (found i) entries = offset_at (get_elem? entries i)
nearest (missing zero) entries = none
nearest (missing (suc i)) entries = offset_at (get_elem? entries i)

unfoldable pub find_offset_for_timestamp : Search → ℕ → TimeIndexSegment → Option ℕ
find_offset_for_timestamp search target_time_ms s =
    nearest (search (map (λ e. e.timestamp) s.entries) target_time_ms) s.entries
