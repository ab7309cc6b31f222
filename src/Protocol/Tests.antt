-- ===== src/Protocol/Tests.antt =====
-- A batch of two records, with a checksum that counts bytes.
use bifrox.Prelude.{
  ℕ, ◌%◌, ◌^◌, ◌<◌, ◌≡◌, refl, none, some, List, [], ◌∷◌, ◌++◌, length, take, All, arith,
}
use bifrox.Prelude.Bytes.{be_bytes}
use bifrox.Protocol.Batch.{
  RecordBatch, body, calculate_crc, assign_base_offset_and_leader_epoch, encoded_size, encode_into,
  buffer_too_short, decoded, decode,
}
use bifrox.Protocol.Batch.RoundTrip.{IsBatch, decode-encode_into, decode-partial, decode-assigned}
use bifrox.Protocol.Batch.Records.{
  NewRecord, IsRecord, encode_opt_bytes, raw_records, decoded_records, stored_from, decode_records,
  record_count_of, decode_records-raw_records,
}

abbrev count : List ℕ → ℕ
count bytes = length bytes % 2 ^ 32

count_small : (bytes : List ℕ) → count bytes < 2 ^ 32
count_small bytes = omega arith

abbrev two : List NewRecord
two = (1000, none, some (1 ∷ 2 ∷ [])) ∷ (990, some [], none) ∷ []

two-IsRecord : All IsRecord two
two-IsRecord = omega arith

abbrev batch : RecordBatch
batch = record {
  magic = 192;
  crc = 86;
  base_offset = 500;
  last_offset_delta = 1;
  base_timestamp = 1000;
  producer_id = 7;
  producer_epoch = 65535;
  base_sequence = 3;
  leader_epoch = 2;
  attributes = 8;
  record_count = 2;
  record_data = raw_records 1000 0 two;
}

batch-IsBatch : IsBatch batch
unfolding raw_records encode_opt_bytes be_bytes
batch-IsBatch = (
  refl,
  omega arith,
  omega arith,
  omega arith,
  omega arith,
  omega arith,
  omega arith,
  omega arith,
  omega arith,
  omega arith,
  omega arith,
  omega arith,
)

batch_crc : calculate_crc count batch ≡ 86
unfolding body raw_records encode_opt_bytes be_bytes
batch_crc = refl

decode-encode_into_example :
    (decode count (encode_into batch ++ (9 ∷ [])) ≡ decoded batch (encoded_size batch))
    × (length (encode_into batch) ≡ encoded_size batch)
decode-encode_into_example = decode-encode_into count batch (9 ∷ []) batch-IsBatch batch_crc

thirty_short : 30 < length (encode_into batch)
unfolding encode_into body raw_records encode_opt_bytes be_bytes
thirty_short = omega arith

decode-partial_example : decode count (take 30 (encode_into batch)) ≡ buffer_too_short
decode-partial_example = decode-partial count batch 30 batch-IsBatch thirty_short

decode-assigned_example :
    let b' = assign_base_offset_and_leader_epoch count 900 4 batch in
    let moved = record batch { base_offset = 900; leader_epoch = 4 } in
    decode count (encode_into b' ++ [])
    ≡ decoded (record moved { crc = calculate_crc count moved }) (encoded_size batch)
decode-assigned_example =
    decode-assigned count batch 900 4 [] count_small batch-IsBatch (omega arith) (omega arith)

decode_records-raw_records_example :
    decode_records (record_count_of two) 500 1000 (raw_records 1000 0 two)
    ≡ decoded_records (stored_from 500 two)
decode_records-raw_records_example =
    decode_records-raw_records 500 1000 two (omega arith) (omega arith) (omega arith) two-IsRecord
