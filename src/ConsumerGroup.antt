-- ===== src/ConsumerGroup.antt =====
-- consumer_group.rs: `ConsumerGroupManager`, the committed offsets of consumer groups and their log.
-- The checksum of crc32fast over the bytes and the standard library's test of UTF-8 are parameters. A
-- commit holds the entry and the log by turns; what is modelled is one caller after the other.
pub mod Frames
pub mod RoundTrip
pub mod Progress
pub mod Recovery
pub mod Chunks
pub mod Logged
pub mod Commits
pub mod Survival
pub mod Losses
pub mod Interrupted
mod Tests
use bifrox.Prelude.{
  ℕ, zero, suc, ◌+◌, ◌-◌, ◌*◌, ◌%◌, ◌^◌, Bool, true, false, not, ◌&&◌, ◌||◌, arith, Option, none,
  some, List, [], ◌∷◌, ◌++◌, ltb, leb, ◌==◌, if◌then◌else◌, length, take, drop, Key, ==_iff, ◌≡◌,
  ◌↔◌,
}
use bifrox.Prelude.Text.{Text, same_text, same_text_iff}
use bifrox.Prelude.Table.{Table, get, insert}
use bifrox.Prelude.Bytes.{be_bytes, of_be_bytes}

pub record OffsetEntry : Type 0 where
  pub offset : ℕ
  pub metadata : Text

abbrev pub GroupKey : Type 0
GroupKey = Text × Text × ℕ

abbrev pub same_key : GroupKey → GroupKey → Bool
same_key (group_id, topic, partition) (group_id', topic', partition') =
    same_text group_id group_id' && (same_text topic topic' && partition == partition')

pub same_key_iff : (j k : GroupKey) → (same_key j k ≡ true) ↔ (j ≡ k)
same_key_iff (g, t, p) (g', t', p') =
    ground (arith, same_text_iff g g', same_text_iff t t', ==_iff p p')

instance abbrev pub group_key : Key GroupKey
group_key = record { same = same_key; same_iff = same_key_iff }

abbrev pub Entry : Type 0
Entry = GroupKey × OffsetEntry

abbrev pub Offsets : Type 0
Offsets = Table GroupKey OffsetEntry

abbrev pub consumer_offsets_magic : ℕ
consumer_offsets_magic = 207

-- The bytes that the checksum is taken of.
abbrev pub checked_bytes : Entry → Text
checked_bytes ((group_id, topic, partition), entry) =
    group_id ++ (topic ++ (be_bytes 4 partition ++ (be_bytes 8 entry.offset ++ entry.metadata)))

abbrev pub compute_crc : (Text → ℕ) → Entry → ℕ
compute_crc crc32 e = crc32 (checked_bytes e)

-- `as u16` keeps the low 16 bits of a length.
abbrev pub text_bytes : Text → List ℕ
text_bytes s = be_bytes 2 (length s % 2 ^ 16) ++ s

-- One frame of the log.
unfoldable pub frame : (Text → ℕ) → Entry → List ℕ
frame crc32 ((group_id, topic, partition), entry) =
    consumer_offsets_magic ∷ text_bytes group_id
    ++ (text_bytes topic
        ++ ((be_bytes 4 partition ++ be_bytes 8 entry.offset)
            ++ (text_bytes entry.metadata
                ++ be_bytes 4 (compute_crc crc32 ((group_id, topic, partition), entry)))))

unfoldable pub frames : (Text → ℕ) → List Entry → List ℕ
frames crc32 [] = []
frames crc32 (e ∷ es) = frame crc32 e ++ frames crc32 es

-- What reading from the buffer comes to: too few bytes yet, a corrupt frame, or a value and the
-- bytes behind it.
pub data Reading (A : Type 0) : Type 0 where
  short : Reading A
  corrupt : Reading A
  got : A → List ℕ → Reading A

module _ {A B : Type 0} where
  abbrev pub and_then : Reading A → (A → List ℕ → Reading B) → Reading B
  and_then short k = short
  and_then corrupt k = corrupt
  and_then (got a rest) k = k a rest

unfoldable pub read_bytes : ℕ → List ℕ → Reading (List ℕ)
read_bytes n buf = if ltb (length buf) n then short else got (take n buf) (drop n buf)

unfoldable pub read_text : (Text → Bool) → List ℕ → Reading Text
read_text is_utf8 buf = and_then (read_bytes 2 buf) (λ len rest.
    and_then (read_bytes (of_be_bytes len) rest)
      (λ s rest'. if is_utf8 s then got s rest' else corrupt))

abbrev pub entry_of : Text → Text → List ℕ → Text → Entry
entry_of group_id topic numbers metadata = (
  (group_id, topic, of_be_bytes (take 4 numbers)),
  record { offset = of_be_bytes (drop 4 numbers); metadata = metadata },
)

abbrev pub check : (Text → ℕ) → Entry → List ℕ → List ℕ → Reading Entry
check crc32 e crc rest = if of_be_bytes crc == compute_crc crc32 e then got e rest else corrupt

abbrev pub read_fields : (Text → Bool) → (Text → ℕ) → List ℕ → Reading Entry
read_fields is_utf8 crc32 buf = and_then (read_text is_utf8 buf) (λ group_id c1.
    and_then (read_text is_utf8 c1) (λ topic c2. and_then (read_bytes 12 c2) (λ numbers c3.
      and_then (read_text is_utf8 c3) (λ metadata c4.
        and_then (read_bytes 4 c4)
          (λ crc rest. check crc32 (entry_of group_id topic numbers metadata) crc rest)))))

unfoldable pub read_frame : (Text → Bool) → (Text → ℕ) → List ℕ → Reading Entry
read_frame is_utf8 crc32 [] = short
read_frame is_utf8 crc32 (magic ∷ buf) =
    if magic == consumer_offsets_magic then read_fields is_utf8 crc32 buf else corrupt

-- What the recovery has come to.
pub record Recovered : Type 0 where
  pub offsets : Offsets
  pub buf : List ℕ
  pub last_good_pos : ℕ
  pub is_corrupt : Bool

-- The inner loop, on fuel; the length of the buffer is enough.
abbrev pub settle : Recovered → (Entry → List ℕ → Recovered) → Reading Entry → Recovered
settle r k short = r
settle r k corrupt = record r { is_corrupt = true }
settle r k (got e rest) = k e rest

abbrev pub advanced : Recovered → Entry → List ℕ → Recovered
advanced r e rest = record r {
  offsets = insert e.0 e.1 r.offsets;
  buf = rest;
  last_good_pos = r.last_good_pos + (length r.buf - length rest);
}

unfoldable pub replay : (Text → Bool) → (Text → ℕ) → ℕ → Recovered → Recovered
replay is_utf8 crc32 zero r = r
replay is_utf8 crc32 (suc fuel) r =
    settle r (λ e rest. replay is_utf8 crc32 fuel (advanced r e rest))
      (read_frame is_utf8 crc32 r.buf)

-- The outer loop over what the file's reads return; an empty read is the end of the file.
unfoldable pub read_chunks : (Text → Bool) → (Text → ℕ) → List (List ℕ) → Recovered → Recovered
read_chunks is_utf8 crc32 [] r = r
read_chunks is_utf8 crc32 ([] ∷ chunks) r = r
read_chunks is_utf8 crc32 ((b ∷ chunk) ∷ chunks) r =
    let buf = r.buf ++ (b ∷ chunk) in
    let r' = replay is_utf8 crc32 (length buf) (record r { buf = buf }) in
    let rest = read_chunks is_utf8 crc32 chunks r' in if r'.is_corrupt then r' else rest

-- What stands at the log's path: nothing, the file that the manager has open, or another one.
pub data LogPath : Type 0 where
  absent opened : LogPath
  other : List ℕ → LogPath

-- `log_file` is the open file, wherever it stands, and `tmp_file` what a compaction of this manager has
-- left in the temporary file. One that an earlier run left is never read, and is not counted.
pub record ConsumerGroupManager : Type 0 where
  pub offsets : Offsets
  pub log_file : List ℕ
  pub log_path : LogPath
  pub tmp_file : Option (List ℕ)

abbrev pub start : Recovered
start = record { offsets = []; buf = []; last_good_pos = 0; is_corrupt = false }

-- The file's bytes and the reads that they come in.
unfoldable pub open_log : (Text → Bool) → (Text → ℕ) → List ℕ → List (List ℕ) → ConsumerGroupManager
open_log is_utf8 crc32 file chunks =
    let r = read_chunks is_utf8 crc32 chunks start in
    record {
      offsets = r.offsets;
      log_file = take r.last_good_pos file;
      log_path = opened;
      tmp_file = none;
    }

abbrev pub write_tmp : List ℕ → ConsumerGroupManager → ConsumerGroupManager
write_tmp bytes m = record m { tmp_file = some bytes }

-- The open file stays, without a name.
abbrev pub remove_log : ConsumerGroupManager → ConsumerGroupManager
remove_log m = record m { log_path = absent }

abbrev pub moved_to_log : Option (List ℕ) → ConsumerGroupManager → ConsumerGroupManager
moved_to_log none m = m
moved_to_log (some file) m = record m { log_path = other file; tmp_file = none }

abbrev pub rename_tmp : ConsumerGroupManager → ConsumerGroupManager
rename_tmp m = moved_to_log m.tmp_file m

-- The bytes at the log's path, which a restart reads; where there is no file, it creates an empty one.
abbrev pub bytes_at : LogPath → List ℕ → List ℕ
bytes_at absent log_file = []
bytes_at opened log_file = log_file
bytes_at (other file) log_file = file

abbrev pub on_disk : ConsumerGroupManager → List ℕ
on_disk m = bytes_at m.log_path m.log_file

abbrev pub reopen_log : ConsumerGroupManager → ConsumerGroupManager
reopen_log m = record m { log_file = on_disk m; log_path = opened }

-- How far a compaction comes: the temporary file cannot be opened; some bytes of it are written, and
-- the old file stays; that is removed; the new one is renamed; the new one is opened.
pub data Compaction : Type 0 where
  unopened : Compaction
  kept : ℕ → Compaction
  removed renamed reopened : Compaction

unfoldable pub compact_log :
    (Text → ℕ) → Compaction → ConsumerGroupManager → Bool × ConsumerGroupManager
compact_log crc32 unopened m = (false, m)
compact_log crc32 (kept n) m = (false, write_tmp (take n (frames crc32 m.offsets)) m)
compact_log crc32 removed m = (false, remove_log (write_tmp (frames crc32 m.offsets) m))
compact_log crc32 renamed m =
    (false, rename_tmp (remove_log (write_tmp (frames crc32 m.offsets) m)))
compact_log crc32 reopened m =
    (true, reopen_log (rename_tmp (remove_log (write_tmp (frames crc32 m.offsets) m))))

-- `written` bytes of the frame reach the file, and `synced` says whether the flush succeeds.
unfoldable pub commit_offset_with_metadata :
    (Text → ℕ)
    → ℕ
    → Bool
    → Compaction
    → GroupKey
    → ℕ
    → Text
    → ConsumerGroupManager
    → Bool × ConsumerGroupManager
commit_offset_with_metadata crc32 written synced compaction key offset metadata m =
    let entry : OffsetEntry = record { offset = offset; metadata = metadata } in
    let bytes = frame crc32 (key, entry) in
    let m' = record m {
      offsets = insert key entry m.offsets;
      log_file = m.log_file ++ take written bytes;
    } in
    if ltb written (length bytes) || not synced
    then (false, m')
    else if ltb (1024 * 1024) (length m'.log_file)
    then compact_log crc32 compaction m'
    else (true, m')

unfoldable pub commit_offset :
    (Text → ℕ)
    → ℕ
    → Bool
    → Compaction
    → GroupKey
    → ℕ
    → ConsumerGroupManager
    → Bool × ConsumerGroupManager
unfolding commit_offset_with_metadata
commit_offset crc32 written synced compaction key offset m =
    commit_offset_with_metadata crc32 written synced compaction key offset [] m

unfoldable pub fetch_offset_with_metadata : GroupKey → ConsumerGroupManager → Option OffsetEntry
fetch_offset_with_metadata key m = get key m.offsets

abbrev pub offset_of : Option OffsetEntry → Option ℕ
offset_of none = none
offset_of (some e) = some e.offset

unfoldable pub fetch_offset : GroupKey → ConsumerGroupManager → Option ℕ
fetch_offset key m = offset_of (get key m.offsets)
