-- ===== src/Server/Transaction/Encoding/RoundTrip.antt =====
-- The records of `__transaction_state`, written and read back.
use mathlib.Core.List.{append_assoc}
use bifrox.Prelude.{
  ℕ, ◌+◌, ◌/◌, ◌%◌, ◌^◌, ◌≤◌, ◌<◌, ◌≡◌, refl, ap, ◌∙◌, Bool, true, false, Option, some, List, [],
  ◌∷◌, ◌++◌, ltb, any, All, length, length-append, take-append, drop-append, arith,
}
use bifrox.Prelude.Text.{Text}
use bifrox.Prelude.Bytes.{be_bytes, length-be_bytes, of_be_bytes-be_bytes}
use bifrox.Server.Transaction.{
  TxStatus, ongoing, prepare_commit, prepare_abort, committed, aborted, PartitionRange,
}
use bifrox.Server.Transaction.Encoding.{
  status_byte, pascal_string, partition_bytes, record_bytes, encode_tx_state_record, read_number,
  read_string, read_range, cons_range, push_range, read_partitions, finish, decode_partitions,
  decode_tx_state_record,
}

read_number-be_bytes :
    (k n : ℕ) (rest : List ℕ) → n < 256 ^ k → read_number k (be_bytes k n ++ rest) ≡ (n, rest)
unfolding read_number
read_number-be_bytes k n rest h =
    rw
      (
        take-append (be_bytes k n) rest k (length-be_bytes k n),
        drop-append (be_bytes k n) rest k (length-be_bytes k n),
        of_be_bytes-be_bytes k n h,
      )
      refl

read_string-pascal_string :
    (is_utf8 : Text → Bool) (extra : ℕ) (s : Text) (rest : List ℕ)
    → is_utf8 s ≡ true
    → length s ≤ 65535
    → extra ≤ length rest
    → read_string is_utf8 extra (pascal_string s ++ rest) ≡ some (s, rest)
unfolding read_string pascal_string
read_string-pascal_string is_utf8 extra s rest valid short enough =
    rw (append_assoc (be_bytes 2 (length s)) s rest) (
      rw (read_number-be_bytes 2 (length s) (s ++ rest) (omega arith)) (
        rw (take-append s rest (length s) refl, drop-append s rest (length s) refl, valid)
          (ground (
            arith,
            length-append s rest,
            length-append (be_bytes 2 (length s)) (s ++ rest),
            length-be_bytes 2 (length s),
          ))))

-- What the decoder takes: fields in the range of their types, and a topic that is UTF-8.
abbrev pub Fits : (Text → Bool) → PartitionRange → Type 0
Fits is_utf8 r =
    (is_utf8 r.partition.0 ≡ true)
    × (length r.partition.0 ≤ 65535)
    × (r.partition.1 < 2 ^ 32)
    × (r.start_offset < 2 ^ 64)
    × (r.end_offset < 2 ^ 64)

numbers : PartitionRange → List ℕ → List ℕ
numbers r rest =
    be_bytes 4 r.partition.1 ++ (be_bytes 8 r.start_offset ++ (be_bytes 8 r.end_offset ++ rest))

length-numbers : (r : PartitionRange) (rest : List ℕ) → length (numbers r rest) ≡ 20 + length rest
unfolding numbers
length-numbers r rest = omega (
  arith,
  length-append (be_bytes 4 r.partition.1)
      (be_bytes 8 r.start_offset ++ (be_bytes 8 r.end_offset ++ rest)),
  length-append (be_bytes 8 r.start_offset) (be_bytes 8 r.end_offset ++ rest),
  length-append (be_bytes 8 r.end_offset) rest,
  length-be_bytes 4 r.partition.1,
  length-be_bytes 8 r.start_offset,
  length-be_bytes 8 r.end_offset,
)

read_range-numbers :
    (is_utf8 : Text → Bool) (r : PartitionRange) (rest : List ℕ)
    → Fits is_utf8 r
    → read_range (r.partition.0, numbers r rest) ≡ (r, rest)
unfolding numbers
read_range-numbers is_utf8 r rest (v, l, p, a, b) = rw (read_number-be_bytes 4 r.partition.1 _ p) (
    rw (read_number-be_bytes 8 r.start_offset _ a)
      (rw (read_number-be_bytes 8 r.end_offset rest b) refl))

push_range-some :
    (o : Option (Text × List ℕ)) (rounds : List ℕ → Option (List PartitionRange × List ℕ))
    (found : Text × List ℕ) (r : PartitionRange) (after : List ℕ) (rs : List PartitionRange)
    → o ≡ some found
    → read_range found ≡ (r, after)
    → rounds after ≡ some (rs, [])
    → push_range o rounds ≡ some (r ∷ rs, [])
unfolding push_range
push_range-some o rounds found r after rs e f g =
    rw e (ap (λ p. cons_range p.0 (rounds p.1)) f ∙ ap (cons_range r) g)

read_partitions-partition_bytes :
    (is_utf8 : Text → Bool) (rs : List PartitionRange)
    → All (Fits is_utf8) rs
    → read_partitions is_utf8 (length rs) (partition_bytes rs) ≡ some (rs, [])
unfolding read_partitions partition_bytes numbers
read_partitions-partition_bytes is_utf8 [] h = refl
read_partitions-partition_bytes is_utf8 (r ∷ rs) (f, fs) =
    let rest = partition_bytes rs in
    push_range-some _ _ (r.partition.0, numbers r rest) r rest rs
      (read_string-pascal_string is_utf8 20 r.partition.0 (numbers r rest) f.0 f.1
        (omega (arith, length-numbers r rest)))
      (read_range-numbers is_utf8 r rest f) (read_partitions-partition_bytes is_utf8 rs fs)

-- A range takes at least 22 bytes.
partition_bytes_long : (rs : List PartitionRange) → length rs ≤ length (partition_bytes rs) / 22
unfolding partition_bytes numbers pascal_string
partition_bytes_long [] = omega arith
partition_bytes_long (r ∷ rs) = omega (
  arith,
  partition_bytes_long rs,
  length-numbers r (partition_bytes rs),
  length-append (pascal_string r.partition.0) (numbers r (partition_bytes rs)),
  length-append (be_bytes 2 (length r.partition.0)) r.partition.0,
  length-be_bytes 2 (length r.partition.0),
)

finish_known :
    (s : TxStatus) (producer_id : ℕ) (id : Text) (rs : List PartitionRange)
    → finish (status_byte s) producer_id id (some (rs, [])) ≡ some (s, producer_id, id, rs)
finish_known ongoing producer_id id rs = refl
finish_known prepare_commit producer_id id rs = refl
finish_known prepare_abort producer_id id rs = refl
finish_known committed producer_id id rs = refl
finish_known aborted producer_id id rs = refl

topics_short :
    (is_utf8 : Text → Bool) (rs : List PartitionRange)
    → All (Fits is_utf8) rs
    → any (λ r. ltb 65535 (length r.partition.0)) rs ≡ false
topics_short is_utf8 [] h = refl
topics_short is_utf8 (r ∷ rs) (f, fs) = ground (arith, f, topics_short is_utf8 rs fs)

-- The tail of a record, from the count of ranges on.
decode_tail :
    (is_utf8 : Text → Bool) (status : TxStatus) (producer_id : ℕ) (id : Text)
    (rs : List PartitionRange)
    → All (Fits is_utf8) rs
    → length rs ≤ 100000
    → decode_partitions is_utf8
        (status_byte status)
        producer_id
        (some (id, be_bytes 4 (length rs % 2 ^ 32) ++ partition_bytes rs))
      ≡ some (status, producer_id, id, rs)
decode_tail is_utf8 status producer_id id rs fits few =
    let count = length rs % 2 ^ 32 in
    let same : count ≡ length rs = omega arith in
    let long : ltb (length (be_bytes 4 (length rs) ++ partition_bytes rs)) 4 ≡ false = ground (
      arith,
      length-append (be_bytes 4 (length rs)) (partition_bytes rs),
      length-be_bytes 4 (length rs),
    ) in
    let not_many : ltb 100000 (length rs) ≡ false = ground arith in
    let room : ltb (length (partition_bytes rs) / 22) (length rs) ≡ false =
      ground (arith, partition_bytes_long rs) in
    rw (read_number-be_bytes 4 count (partition_bytes rs) (omega arith), same)
      (rw (long, not_many, room, read_partitions-partition_bytes is_utf8 rs fits)
        (finish_known status producer_id id rs))

-- A record is written and read back as it was, if the fields are in the range of their types, the
-- strings are UTF-8 of at most 65535 bytes, and there are at most 100000 ranges.
pub decode-encode_tx_state_record :
    (is_utf8 : Text → Bool) (status : TxStatus) (producer_id : ℕ) (id : Text)
    (rs : List PartitionRange)
    → producer_id < 2 ^ 64
    → is_utf8 id ≡ true
    → length id ≤ 65535
    → All (Fits is_utf8) rs
    → length rs ≤ 100000
    → (bytes : List ℕ) × (encode_tx_state_record status producer_id id rs ≡ some bytes)
      × (decode_tx_state_record is_utf8 bytes ≡ some (status, producer_id, id, rs))
unfolding encode_tx_state_record decode_tx_state_record record_bytes pascal_string
decode-encode_tx_state_record is_utf8 status producer_id id rs in_range valid short fits few =
    let tail = be_bytes 4 (length rs % 2 ^ 32) ++ partition_bytes rs in
    let body = pascal_string id ++ tail in
    let not_long : ltb 65535 (length id) ≡ false = ground arith in
    let enough : ltb (length (record_bytes status producer_id id rs)) 11 ≡ false = ground (
      arith,
      length-append (be_bytes 8 producer_id) body,
      length-append (pascal_string id) tail,
      length-append (be_bytes 2 (length id)) id,
      length-be_bytes 2 (length id),
      length-be_bytes 8 producer_id,
    ) in
    (
      record_bytes status producer_id id rs,
      rw (not_long, topics_short is_utf8 rs fits) refl,
      rw enough (
          rw (read_number-be_bytes 8 producer_id body (omega arith)) (
            rw (read_string-pascal_string is_utf8 0 id tail valid short (omega arith))
              (decode_tail is_utf8 status producer_id id rs fits few))),
    )
