-- ===== src/Protocol/Batch.antt =====
-- protocol/batch.rs: `RecordBatch`, its encoding and its decoding. The checksum of crc32fast is a
-- parameter. The signed fields are only moved, so they are the bit patterns that stand in the bytes.
-- The record data is opaque here.
pub mod RoundTrip
pub mod Records
use bifrox.Prelude.{
  ℕ, ◌+◌, ◌-◌, ◌%◌, ◌^◌, Bool, true, false, List, [], ◌∷◌, ◌++◌, ltb, ◌==◌, if◌then◌else◌, length,
  take, drop,
}
use bifrox.Prelude.Bytes.{be_bytes, of_be_bytes}

abbrev pub batch_magic_byte : ℕ
batch_magic_byte = 192

abbrev pub batch_header_size : ℕ
batch_header_size = 53

abbrev pub batch_length_covered_fixed : ℕ
batch_length_covered_fixed = 48

pub record RecordBatch : Type 0 where
  pub magic : ℕ
  pub crc : ℕ
  pub base_offset : ℕ
  pub last_offset_delta : ℕ
  pub base_timestamp : ℕ
  pub producer_id : ℕ
  pub producer_epoch : ℕ
  pub base_sequence : ℕ
  pub leader_epoch : ℕ
  pub attributes : ℕ
  pub record_count : ℕ
  pub record_data : List ℕ

-- What stands behind the checksum, which is what the checksum is taken of.
unfoldable pub body : RecordBatch → List ℕ
body b =
    be_bytes 8 b.base_offset
    ++ (be_bytes 4 b.last_offset_delta
        ++ (be_bytes 8 b.base_timestamp
            ++ (be_bytes 8 b.producer_id
                ++ (be_bytes 2 b.producer_epoch
                    ++ (be_bytes 4 b.base_sequence
                        ++ (be_bytes 4 b.leader_epoch
                            ++ (be_bytes 2 b.attributes
                                ++ (be_bytes 4 b.record_count ++ b.record_data))))))))

abbrev pub calculate_crc : (List ℕ → ℕ) → RecordBatch → ℕ
calculate_crc crc32 b = crc32 (body b)

abbrev pub verify_crc : (List ℕ → ℕ) → RecordBatch → Bool
verify_crc crc32 b = calculate_crc crc32 b == b.crc

unfoldable pub assign_base_offset_and_leader_epoch :
    (List ℕ → ℕ) → ℕ → ℕ → RecordBatch → RecordBatch
assign_base_offset_and_leader_epoch crc32 base_offset leader_epoch b =
    let moved = record b { base_offset = base_offset; leader_epoch = leader_epoch } in
    record moved { crc = calculate_crc crc32 moved }

abbrev pub encoded_size : RecordBatch → ℕ
encoded_size b = batch_header_size + length b.record_data

unfoldable pub encode_into : RecordBatch → List ℕ
encode_into b =
    be_bytes 1 b.magic
    ++ (be_bytes 4 ((batch_length_covered_fixed + length b.record_data) % 2 ^ 32)
        ++ (be_bytes 4 b.crc ++ body b))

-- A number of `k` bytes, and the bytes behind it.
unfoldable pub get_number : ℕ → List ℕ → ℕ × List ℕ
get_number k src = (of_be_bytes (take k src), drop k src)

-- What decoding comes to: one of the errors, or a batch and the bytes that it takes.
pub data Decoded : Type 0 where
  buffer_too_short invalid_magic invalid_batch_length crc_mismatch : Decoded
  decoded : RecordBatch → ℕ → Decoded

-- The fixed fields and the record data.
unfoldable pub read_fields : ℕ → ℕ → List ℕ → RecordBatch
read_fields magic record_data_len src =
    let (crc, c1) = get_number 4 src in
    let (base_offset, c2) = get_number 8 c1 in
    let (last_offset_delta, c3) = get_number 4 c2 in
    let (base_timestamp, c4) = get_number 8 c3 in
    let (producer_id, c5) = get_number 8 c4 in
    let (producer_epoch, c6) = get_number 2 c5 in
    let (base_sequence, c7) = get_number 4 c6 in
    let (leader_epoch, c8) = get_number 4 c7 in
    let (attributes, c9) = get_number 2 c8 in
    let (record_count, c10) = get_number 4 c9 in
    record {
      magic = magic;
      crc = crc;
      base_offset = base_offset;
      last_offset_delta = last_offset_delta;
      base_timestamp = base_timestamp;
      producer_id = producer_id;
      producer_epoch = producer_epoch;
      base_sequence = base_sequence;
      leader_epoch = leader_epoch;
      attributes = attributes;
      record_count = record_count;
      record_data = take record_data_len c10;
    }

abbrev pub checked : (List ℕ → ℕ) → RecordBatch → ℕ → Decoded
checked crc32 b consumed = if verify_crc crc32 b then decoded b consumed else crc_mismatch

abbrev pub decode_rest : (List ℕ → ℕ) → ℕ → ℕ × List ℕ → Decoded
decode_rest crc32 magic (batch_length, src) =
    if ltb batch_length batch_length_covered_fixed
    then invalid_batch_length
    else if ltb (length src) batch_length
    then buffer_too_short
    else checked crc32 (read_fields magic (batch_length - batch_length_covered_fixed) src)
        (5 + batch_length)

abbrev pub decode_behind_magic : (List ℕ → ℕ) → ℕ × List ℕ → Decoded
decode_behind_magic crc32 (magic, src) =
    if magic == batch_magic_byte then decode_rest crc32 magic (get_number 4 src) else invalid_magic

unfoldable pub decode : (List ℕ → ℕ) → List ℕ → Decoded
decode crc32 src =
    if ltb (length src) 5 then buffer_too_short else decode_behind_magic crc32 (get_number 1 src)
