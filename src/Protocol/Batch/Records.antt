-- ===== src/Protocol/Batch/Records.antt =====
-- protocol/batch.rs: the records within a batch, uncompressed: the loop of `create` that writes them,
-- and `decode_records`. A signed number is its bit pattern, and the difference of two timestamps wraps
-- around as in a release build.
use mathlib.Core.List.{append_assoc}
use bifrox.Prelude.{
  ℕ, zero, suc, ◌+◌, ◌-◌, ◌%◌, ◌^◌, ◌≤◌, ◌<◌, ◌≡◌, refl, ap, ◌∙◌, false, Option, none, some, List,
  [], ◌∷◌, ◌++◌, ltb, ◌==◌, if◌then◌else◌, length, take, drop, length-append, take-append,
  drop-append, All, arith,
}
use bifrox.Prelude.Bytes.{be_bytes, length-be_bytes}
use bifrox.Protocol.Batch.{get_number}
use bifrox.Protocol.Batch.RoundTrip.{get_number-be_bytes}

pub record BatchRecord : Type 0 where
  pub offset : ℕ
  pub timestamp : ℕ
  pub key : Option (List ℕ)
  pub value : Option (List ℕ)

-- `-1` for a null.
unfoldable pub encode_opt_bytes : Option (List ℕ) → List ℕ
encode_opt_bytes none = be_bytes 4 (2 ^ 32 - 1)
encode_opt_bytes (some bytes) = be_bytes 4 (length bytes % 2 ^ 32) ++ bytes

-- A timestamp, a key and a value.
abbrev pub NewRecord : Type 0
NewRecord = ℕ × Option (List ℕ) × Option (List ℕ)

unfoldable pub raw_records : ℕ → ℕ → List NewRecord → List ℕ
raw_records base_timestamp i [] = []
raw_records base_timestamp i ((timestamp, key, value) ∷ records) =
    be_bytes 4 (i % 2 ^ 32)
    ++ (be_bytes 8 ((timestamp + 2 ^ 64 - base_timestamp) % 2 ^ 64)
        ++ (encode_opt_bytes key
            ++ (encode_opt_bytes value ++ raw_records base_timestamp (i + 1) records)))

-- A field and the bytes behind it, or `none` for a truncated one.
abbrev pub take_field : ℕ → List ℕ → Option (Option (List ℕ) × List ℕ)
take_field len cursor =
    if len == 2 ^ 32 - 1
    then some (none, cursor)
    else if ltb (2 ^ 31 - 1) len
    then none
    else if ltb (length cursor) len
    then none
    else some (some (take len cursor), drop len cursor)

unfoldable pub decode_opt_bytes : List ℕ → Option (Option (List ℕ) × List ℕ)
decode_opt_bytes cursor =
    let (len, rest) = get_number 4 cursor in
    if ltb (length cursor) 4 then none else take_field len rest

-- Why records are not decoded, or the records.
pub data DecodedRecords : Type 0 where
  truncated_record trailing_record_data : DecodedRecords
  decoded_records : List BatchRecord → DecodedRecords

abbrev pub push_record : BatchRecord → DecodedRecords → DecodedRecords
push_record r truncated_record = truncated_record
push_record r trailing_record_data = trailing_record_data
push_record r (decoded_records rs) = decoded_records (r ∷ rs)

-- A field, and then what comes behind it.
abbrev pub field_then :
    Option (Option (List ℕ) × List ℕ) → (Option (List ℕ) → List ℕ → DecodedRecords) → DecodedRecords
field_then none k = truncated_record
field_then (some (field, rest)) k = k field rest

abbrev pub decode_entry_fields : ℕ → ℕ → (List ℕ → DecodedRecords) → ℕ → ℕ → List ℕ → DecodedRecords
decode_entry_fields base_offset base_timestamp rounds offset_delta timestamp_delta cursor =
    field_then (decode_opt_bytes cursor) (λ key c. field_then (decode_opt_bytes c) (λ value rest.
      push_record
        (record {
          offset = (base_offset + offset_delta) % 2 ^ 64;
          timestamp = (base_timestamp + timestamp_delta) % 2 ^ 64;
          key = key;
          value = value;
        })
        (rounds rest)))

abbrev pub finish_records : List ℕ → DecodedRecords
finish_records [] = decoded_records []
finish_records (b ∷ rest) = trailing_record_data

unfoldable pub decode_rounds : ℕ → ℕ → ℕ → List ℕ → DecodedRecords
decode_rounds zero base_offset base_timestamp cursor = finish_records cursor
decode_rounds (suc rounds) base_offset base_timestamp cursor =
    let (offset_delta, c) = get_number 4 cursor in
    let (timestamp_delta, c') = get_number 8 c in
    let round =
      decode_entry_fields base_offset base_timestamp
        (decode_rounds rounds base_offset base_timestamp) offset_delta timestamp_delta c' in
    if ltb (length cursor) 12 then truncated_record else round

-- The count is a number of 32 bits.
unfoldable pub decode_records : ℕ → ℕ → ℕ → List ℕ → DecodedRecords
decode_records record_count base_offset base_timestamp cursor =
    decode_rounds (record_count % 2 ^ 32) base_offset base_timestamp cursor

-- The count that a new batch has for its records: `as u32` keeps the low 32 bits.
unfoldable pub record_count_of : List NewRecord → ℕ
record_count_of records = length records % 2 ^ 32

-- A null, or bytes whose length fits a signed number of 32 bits.
abbrev pub FitsField : Option (List ℕ) → Type 0
FitsField none = Unit
FitsField (some bytes) = length bytes < 2 ^ 31

abbrev pub IsRecord : NewRecord → Type 0
IsRecord (timestamp, key, value) = (timestamp < 2 ^ 64) × FitsField key × FitsField value

-- The record that a new one becomes at an offset.
abbrev pub stored : ℕ → NewRecord → BatchRecord
stored offset (timestamp, key, value) = record {
  offset = offset;
  timestamp = timestamp;
  key = key;
  value = value;
}

abbrev pub stored_from : ℕ → List NewRecord → List BatchRecord
stored_from offset [] = []
stored_from offset (r ∷ rs) = stored offset r ∷ stored_from (offset + 1) rs

decode_opt_bytes-encode_opt_bytes :
    (field : Option (List ℕ)) (rest : List ℕ)
    → FitsField field
    → decode_opt_bytes (encode_opt_bytes field ++ rest) ≡ some (field, rest)
unfolding decode_opt_bytes encode_opt_bytes
decode_opt_bytes-encode_opt_bytes none rest h =
    let n = 2 ^ 32 - 1 in
    let enough : ltb (length (be_bytes 4 n ++ rest)) 4 ≡ false =
      ground (arith, length-append (be_bytes 4 n) rest, length-be_bytes 4 n) in
    rw (enough, get_number-be_bytes 4 n rest (omega arith)) refl
decode_opt_bytes-encode_opt_bytes (some bytes) rest h =
    let n = length bytes % 2 ^ 32 in
    let same : n ≡ length bytes = omega arith in
    let enough : ltb (length (be_bytes 4 n ++ (bytes ++ rest))) 4 ≡ false =
      ground (arith, length-append (be_bytes 4 n) (bytes ++ rest), length-be_bytes 4 n) in
    let not_null : (length bytes == 4294967295) ≡ false = ground arith in
    let positive : ltb 2147483647 (length bytes) ≡ false = ground arith in
    let there : ltb (length (bytes ++ rest)) (length bytes) ≡ false =
      ground (arith, length-append bytes rest) in
    rw (append_assoc (be_bytes 4 n) bytes rest) (
      rw (enough, get_number-be_bytes 4 n (bytes ++ rest) (omega arith), same)
        (rw
          (
            not_null,
            positive,
            there,
            take-append bytes rest (length bytes) refl,
            drop-append bytes rest (length bytes) refl,
          )
          refl))

decode_entry_fields-encode_opt_bytes :
    (base_offset base_timestamp offset_delta timestamp_delta : ℕ) (rounds : List ℕ → DecodedRecords)
    (key value : Option (List ℕ)) (rest : List ℕ)
    → FitsField key
    → FitsField value
    → decode_entry_fields base_offset base_timestamp rounds offset_delta timestamp_delta
        (encode_opt_bytes key ++ (encode_opt_bytes value ++ rest))
      ≡ push_record
          (record {
            offset = (base_offset + offset_delta) % 2 ^ 64;
            timestamp = (base_timestamp + timestamp_delta) % 2 ^ 64;
            key = key;
            value = value;
          })
          (rounds rest)
decode_entry_fields-encode_opt_bytes base_offset base_timestamp offset_delta timestamp_delta rounds
      key value rest h k =
    rw (decode_opt_bytes-encode_opt_bytes key (encode_opt_bytes value ++ rest) h)
      (rw (decode_opt_bytes-encode_opt_bytes value rest k) refl)

decode_rounds-raw_records :
    (base_offset base_timestamp i : ℕ) (rs : List NewRecord)
    → base_timestamp < 2 ^ 64
    → i + length rs ≤ 2 ^ 32
    → base_offset + i + length rs ≤ 2 ^ 64
    → All IsRecord rs
    → decode_rounds (length rs) base_offset base_timestamp (raw_records base_timestamp i rs)
      ≡ decoded_records (stored_from (base_offset + i) rs)
unfolding decode_rounds raw_records
decode_rounds-raw_records base_offset base_timestamp i [] time few fits h = refl
decode_rounds-raw_records base_offset base_timestamp i ((timestamp, key, value) ∷ rs) time few fits
      ((t, k, v), h) =
    let delta = (timestamp + 2 ^ 64 - base_timestamp) % 2 ^ 64 in
    let index = i % 2 ^ 32 in
    let rest = raw_records base_timestamp (i + 1) rs in
    let fields = encode_opt_bytes key ++ (encode_opt_bytes value ++ rest) in
    let enough : ltb (length (be_bytes 4 index ++ (be_bytes 8 delta ++ fields))) 12 ≡ false =
      ground (
        arith,
        length-append (be_bytes 4 index) (be_bytes 8 delta ++ fields),
        length-be_bytes 4 index,
        length-append (be_bytes 8 delta) fields,
        length-be_bytes 8 delta,
      ) in
    let at : (base_offset + index) % 2 ^ 64 ≡ base_offset + i = omega arith in
    let stamp : (base_timestamp + delta) % 2 ^ 64 ≡ timestamp = omega arith in
    let next : base_offset + (i + 1) ≡ base_offset + i + 1 = omega arith in
    rw (enough, get_number-be_bytes 4 index (be_bytes 8 delta ++ fields) (omega arith))
      (rw (get_number-be_bytes 8 delta fields (omega arith)) (
        decode_entry_fields-encode_opt_bytes base_offset base_timestamp index delta
          (decode_rounds (length rs) base_offset base_timestamp) key value rest k v
        ∙ rw (at, stamp)
            (rw
              (
                decode_rounds-raw_records base_offset base_timestamp (i + 1) rs time (omega arith)
                    (omega arith) h,
                next,
              )
              refl)))

-- The records that are written with a base timestamp are decoded, by the 32-bit count that their
-- batch has, with their timestamps, keys and values and the offsets from the base offset on, and
-- nothing is left over. Keys and values are null or shorter than 2^31 bytes, timestamps and
-- offsets have 64 bits, and there are fewer than 2^32 records.
pub decode_records-raw_records :
    (base_offset base_timestamp : ℕ) (rs : List NewRecord)
    → base_timestamp < 2 ^ 64
    → length rs < 2 ^ 32
    → base_offset + length rs ≤ 2 ^ 64
    → All IsRecord rs
    → decode_records
        (record_count_of rs)
        base_offset
        base_timestamp
        (raw_records base_timestamp 0 rs)
      ≡ decoded_records (stored_from base_offset rs)
unfolding decode_records record_count_of
decode_records-raw_records base_offset base_timestamp rs time few fits h =
    let count : length rs % 2 ^ 32 % 2 ^ 32 ≡ length rs = omega arith in
    let same : base_offset + 0 ≡ base_offset = omega arith in
    rw count (
      decode_rounds-raw_records base_offset base_timestamp 0 rs time (omega arith) (omega arith) h
      ∙ ap (λ o. decoded_records (stored_from o rs)) same)
