-- ===== src/Segment/Index.antt =====
-- segment/index.rs: `IndexSegment`, the sparse index from relative offsets to byte positions. What
-- the file handle reads and writes is the list of bytes `file`; how far the operating system lets a
-- call come is its first argument. Failures of `open` are left out.
pub mod Reopen
pub mod Lookup
use bifrox.Prelude.{
  ℕ, zero, suc, ◌-◌, ◌/◌, ◌%◌, ◌^◌, Bool, true, false, Option, none, some, List, [], ◌∷◌, ◌++◌, ltb,
  leb, if◌then◌else◌, length, take, drop, retain, get_elem?, map,
}
use bifrox.Prelude.Bytes.{be_bytes, of_be_bytes}
use bifrox.Segment.IndexFile.{
  Written, completes, fails_after, write_all, Rewritten, decode_all, rewrite,
}
use bifrox.Segment.Search.{Search, Found, found, missing}

pub record IndexEntry : Type 0 where
  pub relative_offset : ℕ
  pub physical_position : ℕ

abbrev pub index_entry_size : ℕ
index_entry_size = 8

unfoldable pub encode : IndexEntry → List ℕ
encode e = be_bytes 4 e.relative_offset ++ be_bytes 4 e.physical_position

unfoldable pub decode : List ℕ → IndexEntry
decode bytes = record {
  relative_offset = of_be_bytes (take 4 bytes);
  physical_position = of_be_bytes (take 4 (drop 4 bytes));
}

pub record IndexSegment : Type 0 where
  pub file : List ℕ
  pub entries : List IndexEntry
  pub base_offset : ℕ

unfoldable pub open_file : List ℕ → ℕ → IndexSegment
open_file file base_offset = record {
  file = file;
  entries = decode_all decode index_entry_size (length file / index_entry_size) file;
  base_offset = base_offset;
}

-- `offset.saturating_sub(base_offset) as u32`.
unfoldable pub relative : ℕ → IndexSegment → ℕ
relative offset s = (offset - s.base_offset) % 2 ^ 32

abbrev pub appended : Bool × List ℕ → IndexEntry → IndexSegment → Bool × IndexSegment
appended (true, file) e s = (true, record s { file = file; entries = s.entries ++ (e ∷ []) })
appended (false, file) e s = (false, record s { file = file })

unfoldable pub append : Written → ℕ → ℕ → IndexSegment → Bool × IndexSegment
append w logical_offset physical_position s =
    let e : IndexEntry = record {
      relative_offset = relative logical_offset s;
      physical_position = physical_position;
    } in
    if leb (2 ^ 32) physical_position
    then (false, s)
    else appended (write_all w (encode e) s.file) e s

unfoldable pub truncate_and_rebuild :
    Rewritten → List IndexEntry → IndexSegment → Bool × IndexSegment
truncate_and_rebuild w new_entries s =
    let (ok, entries, file) = rewrite encode index_entry_size w new_entries (s.entries, s.file) in
    (ok, record s { file = file; entries = entries })

unfoldable pub truncate_after : Rewritten → ℕ → IndexSegment → Bool × IndexSegment
truncate_after w offset s =
    let rel_cutoff = relative offset s in
    truncate_and_rebuild w (retain (λ e. ltb e.relative_offset rel_cutoff) s.entries) s

unfoldable pub last_entry : IndexSegment → Option IndexEntry
last_entry s = get_elem? s.entries (length s.entries - 1)

-- What the binary search found is turned into an entry; the first one stands for what is before it.
unfoldable pub nearest : Found → List IndexEntry → Option IndexEntry
nearest (found i) entries = get_elem? entries i
nearest (missing zero) entries = get_elem? entries 0
nearest (missing (suc i)) entries = get_elem? entries i

unfoldable pub find_nearest_physical_pos : Search → ℕ → IndexSegment → Option IndexEntry
find_nearest_physical_pos search target_offset s =
    let rel_target = relative target_offset s in
    nearest (search (map (λ e. e.relative_offset) s.entries) rel_target) s.entries
