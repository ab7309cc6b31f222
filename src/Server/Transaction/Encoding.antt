-- ===== src/Server/Transaction/Encoding.antt =====
-- server/transaction.rs: the records of `__transaction_state`, with `write_pascal_string` of
-- protocol/wire.rs. A string is its bytes; whether bytes are UTF-8 is the standard library's test,
-- which is the first argument of the decoder.
pub mod RoundTrip
use bifrox.Prelude.{
  ℕ, zero, suc, ◌+◌, ◌/◌, ◌%◌, ◌^◌, Bool, true, false, ◌||◌, ◌==◌, Option, none, some, List, [],
  ◌∷◌, ◌++◌, ltb, if◌then◌else◌, any, length, take, drop,
}
use bifrox.Prelude.Text.{Text}
use bifrox.Prelude.Bytes.{be_bytes, of_be_bytes}
use bifrox.Server.Transaction.{
  TxStatus, ongoing, prepare_commit, prepare_abort, committed, aborted, PartitionRange,
}

abbrev pub status_byte : TxStatus → ℕ
status_byte ongoing = 1
status_byte prepare_commit = 2
status_byte prepare_abort = 3
status_byte committed = 4
status_byte aborted = 5

abbrev pub status_of : ℕ → Option TxStatus
status_of b =
    if b == 1
    then some ongoing
    else if b == 2
    then some prepare_commit
    else if b == 3
    then some prepare_abort
    else if b == 4
    then some committed
    else if b == 5
    then some aborted
    else none

unfoldable pub pascal_string : Text → List ℕ
pascal_string s = be_bytes 2 (length s) ++ s

unfoldable pub partition_bytes : List PartitionRange → List ℕ
partition_bytes [] = []
partition_bytes (r ∷ rs) =
    pascal_string r.partition.0
    ++ (be_bytes 4 r.partition.1
        ++ (be_bytes 8 r.start_offset ++ (be_bytes 8 r.end_offset ++ partition_bytes rs)))

unfoldable pub record_bytes : TxStatus → ℕ → Text → List PartitionRange → List ℕ
record_bytes status producer_id id rs =
    status_byte status ∷ be_bytes 8 producer_id
    ++ (pascal_string id ++ (be_bytes 4 (length rs % 2 ^ 32) ++ partition_bytes rs))

-- `none`: the assertion of `write_pascal_string` fails, which aborts.
unfoldable pub encode_tx_state_record : TxStatus → ℕ → Text → List PartitionRange → Option (List ℕ)
encode_tx_state_record status producer_id id rs =
    if ltb 65535 (length id) || any (λ r. ltb 65535 (length r.partition.0)) rs
    then none
    else some (record_bytes status producer_id id rs)

-- A big-endian number of `k` bytes, and the bytes behind it.
unfoldable pub read_number : ℕ → List ℕ → ℕ × List ℕ
read_number k cursor = (of_be_bytes (take k cursor), drop k cursor)

-- A string that at least `extra` bytes follow, and the bytes behind it.
unfoldable pub read_string : (Text → Bool) → ℕ → List ℕ → Option (Text × List ℕ)
read_string is_utf8 extra cursor =
    if ltb (length cursor) 2
    then none
    else (let (len, rest) = read_number 2 cursor in
        if ltb (length rest) (len + extra)
        then none
        else if is_utf8 (take len rest)
        then some (take len rest, drop len rest)
        else none)

-- The three numbers behind a topic.
abbrev pub read_range : Text × List ℕ → PartitionRange × List ℕ
read_range (topic, c) =
    let (p, c') = read_number 4 c in
    let (start, c'') = read_number 8 c' in
    let (end, rest) = read_number 8 c'' in
    (record { partition = (topic, p); start_offset = start; end_offset = end }, rest)

abbrev pub cons_range :
    PartitionRange → Option (List PartitionRange × List ℕ) → Option (List PartitionRange × List ℕ)
cons_range r none = none
cons_range r (some (rs, rest)) = some (r ∷ rs, rest)

-- One round of the loop, and then the rounds that are left.
unfoldable pub push_range :
    Option (Text × List ℕ)
    → (List ℕ → Option (List PartitionRange × List ℕ))
    → Option (List PartitionRange × List ℕ)
push_range none rounds = none
push_range (some found) rounds = cons_range (read_range found).0 (rounds (read_range found).1)

unfoldable pub read_partitions : (Text → Bool) → ℕ → List ℕ → Option (List PartitionRange × List ℕ)
read_partitions is_utf8 zero cursor = some ([], cursor)
read_partitions is_utf8 (suc n) cursor =
    push_range (read_string is_utf8 20 cursor) (read_partitions is_utf8 n)

abbrev pub Decoded : Type 0
Decoded = TxStatus × ℕ × Text × List PartitionRange

-- Nothing may be left over, and the status must be known.
abbrev pub finish : ℕ → ℕ → Text → Option (List PartitionRange × List ℕ) → Option Decoded
finish byte producer_id id none = none
finish byte producer_id id (some (rs, b ∷ rest)) = none
finish byte producer_id id (some (rs, [])) = elim (status_of byte) [
  | none ↦ none
  | some status ↦ some (status, producer_id, id, rs)
]

abbrev pub decode_partitions : (Text → Bool) → ℕ → ℕ → Option (Text × List ℕ) → Option Decoded
decode_partitions is_utf8 byte producer_id none = none
decode_partitions is_utf8 byte producer_id (some (id, cursor)) =
    if ltb (length cursor) 4
    then none
    else (let (count, rest) = read_number 4 cursor in
        if ltb 100000 count || ltb (length rest / 22) count
        then none
        else finish byte producer_id id (read_partitions is_utf8 count rest))

unfoldable pub decode_tx_state_record : (Text → Bool) → List ℕ → Option Decoded
decode_tx_state_record is_utf8 [] = none
decode_tx_state_record is_utf8 (byte ∷ src) =
    if ltb (length (byte ∷ src)) 11
    then none
    else (let (producer_id, cursor) = read_number 8 src in
        decode_partitions is_utf8 byte producer_id (read_string is_utf8 0 cursor))
