-- ===== src/Protocol/Batch/RoundTrip.antt =====
-- protocol/batch.rs: an encoded batch, whole or in part.
use mathlib.Core.List.{append_assoc}
use bifrox.Prelude.{
  ℕ, zero, suc, ◌+◌, ◌-◌, ◌%◌, ◌^◌, ◌≤◌, ◌<◌, ◌≡◌, refl, ap, ◌∙◌, inl, inr, true, false, List, [],
  ◌∷◌, ◌++◌, ltb, ◌==◌, ==_refl, if◌then◌else◌, length, take, length-append, take-append,
  drop-append, not_ltb→le, Bool-cases, arith,
}
use bifrox.Prelude.Bytes.{be_bytes, length-be_bytes, of_be_bytes-be_bytes}
use bifrox.Protocol.Batch.{
  RecordBatch, batch_magic_byte, body, calculate_crc, verify_crc,
  assign_base_offset_and_leader_epoch, encoded_size, encode_into, get_number, buffer_too_short,
  decoded, read_fields, checked, decode,
}

pub get_number-be_bytes :
    (k n : ℕ) (rest : List ℕ) → n < 256 ^ k → get_number k (be_bytes k n ++ rest) ≡ (n, rest)
unfolding get_number
get_number-be_bytes k n rest h =
    rw
      (
        take-append (be_bytes k n) rest k (length-be_bytes k n),
        drop-append (be_bytes k n) rest k (length-be_bytes k n),
        of_be_bytes-be_bytes k n h,
      )
      refl

-- The fields are in the range of their types, and the batch's length fits 32 bits.
abbrev pub IsBatch : RecordBatch → Type 0
IsBatch b =
    (b.magic ≡ batch_magic_byte)
    × (b.crc < 2 ^ 32)
    × (b.base_offset < 2 ^ 64)
    × (b.last_offset_delta < 2 ^ 32)
    × (b.base_timestamp < 2 ^ 64)
    × (b.producer_id < 2 ^ 64)
    × (b.producer_epoch < 2 ^ 16)
    × (b.base_sequence < 2 ^ 32)
    × (b.leader_epoch < 2 ^ 32)
    × (b.attributes < 2 ^ 16)
    × (b.record_count < 2 ^ 32)
    × (48 + length b.record_data < 2 ^ 32)

get_number-step :
    (k n : ℕ) (xs rest : List ℕ)
    → n < 256 ^ k
    → get_number k ((be_bytes k n ++ xs) ++ rest) ≡ (n, xs ++ rest)
get_number-step k n xs rest h =
    rw (append_assoc (be_bytes k n) xs rest) (get_number-be_bytes k n (xs ++ rest) h)

read_fields-body :
    (b : RecordBatch) (rest : List ℕ)
    → IsBatch b
    → read_fields b.magic (length b.record_data) ((be_bytes 4 b.crc ++ body b) ++ rest) ≡ b
unfolding read_fields body
read_fields-body b rest (m, c, o, l, t, p, e, s, le, a, n, d) =
    let c9 = be_bytes 4 b.record_count ++ b.record_data in
    let c8 = be_bytes 2 b.attributes ++ c9 in
    let c7 = be_bytes 4 b.leader_epoch ++ c8 in
    let c6 = be_bytes 4 b.base_sequence ++ c7 in
    let c5 = be_bytes 2 b.producer_epoch ++ c6 in
    let c4 = be_bytes 8 b.producer_id ++ c5 in
    let c3 = be_bytes 8 b.base_timestamp ++ c4 in
    let c2 = be_bytes 4 b.last_offset_delta ++ c3 in
    let c1 = be_bytes 8 b.base_offset ++ c2 in
    rw (get_number-step 4 b.crc c1 rest c) (
      rw (get_number-step 8 b.base_offset c2 rest o) (
        rw (get_number-step 4 b.last_offset_delta c3 rest l) (
          rw (get_number-step 8 b.base_timestamp c4 rest t) (
            rw (get_number-step 8 b.producer_id c5 rest p) (
              rw (get_number-step 2 b.producer_epoch c6 rest e) (
                rw (get_number-step 4 b.base_sequence c7 rest s) (
                  rw (get_number-step 4 b.leader_epoch c8 rest le) (
                    rw (get_number-step 2 b.attributes c9 rest a) (
                      rw (get_number-step 4 b.record_count b.record_data rest n) (
                        rw (take-append b.record_data rest (length b.record_data) refl)
                          refl))))))))))

length-body : (b : RecordBatch) → length (body b) ≡ 44 + length b.record_data
unfolding body
length-body b =
    let c9 = be_bytes 4 b.record_count ++ b.record_data in
    let c8 = be_bytes 2 b.attributes ++ c9 in
    let c7 = be_bytes 4 b.leader_epoch ++ c8 in
    let c6 = be_bytes 4 b.base_sequence ++ c7 in
    let c5 = be_bytes 2 b.producer_epoch ++ c6 in
    let c4 = be_bytes 8 b.producer_id ++ c5 in
    let c3 = be_bytes 8 b.base_timestamp ++ c4 in
    let c2 = be_bytes 4 b.last_offset_delta ++ c3 in
    omega (
      arith,
      length-append (be_bytes 8 b.base_offset) c2,
      length-be_bytes 8 b.base_offset,
      length-append (be_bytes 4 b.last_offset_delta) c3,
      length-be_bytes 4 b.last_offset_delta,
      length-append (be_bytes 8 b.base_timestamp) c4,
      length-be_bytes 8 b.base_timestamp,
      length-append (be_bytes 8 b.producer_id) c5,
      length-be_bytes 8 b.producer_id,
      length-append (be_bytes 2 b.producer_epoch) c6,
      length-be_bytes 2 b.producer_epoch,
      length-append (be_bytes 4 b.base_sequence) c7,
      length-be_bytes 4 b.base_sequence,
      length-append (be_bytes 4 b.leader_epoch) c8,
      length-be_bytes 4 b.leader_epoch,
      length-append (be_bytes 2 b.attributes) c9,
      length-be_bytes 2 b.attributes,
      length-append (be_bytes 4 b.record_count) b.record_data,
      length-be_bytes 4 b.record_count,
    )

-- The checksum and what stands behind it, which the batch's length counts.
covered : RecordBatch → List ℕ
covered b = be_bytes 4 b.crc ++ body b

length-covered : (b : RecordBatch) → length (covered b) ≡ 48 + length b.record_data
unfolding covered
length-covered b =
    omega (arith, length-append (be_bytes 4 b.crc) (body b), length-be_bytes 4 b.crc, length-body b)

-- The mark and the length, in front of any bytes.
decode-prefix :
    (crc32 : List ℕ → ℕ) (b : RecordBatch) (src : List ℕ)
    → IsBatch b
    → decode crc32
        (be_bytes 1 b.magic ++ (be_bytes 4 ((48 + length b.record_data) % 2 ^ 32) ++ src))
      ≡ (if ltb (length src) (48 + length b.record_data)
          then buffer_too_short
          else checked crc32
              (read_fields b.magic (length b.record_data) src)
              (53 + length b.record_data))
unfolding decode
decode-prefix crc32 b src (m, _, _, _, _, _, _, _, _, _, _, d) =
    let len = (48 + length b.record_data) % 2 ^ 32 in
    let same : len ≡ 48 + length b.record_data = omega arith in
    let tail = be_bytes 4 len ++ src in
    let enough : ltb (length (be_bytes 1 b.magic ++ tail)) 5 ≡ false = ground (
      arith,
      length-append (be_bytes 1 b.magic) tail,
      length-be_bytes 1 b.magic,
      length-append (be_bytes 4 len) src,
      length-be_bytes 4 len,
    ) in
    let mark : (b.magic == batch_magic_byte) ≡ true = rw m refl in
    let long : ltb (48 + length b.record_data) 48 ≡ false = ground arith in
    let left : 48 + length b.record_data - 48 ≡ length b.record_data = omega arith in
    let size : 5 + (48 + length b.record_data) ≡ 53 + length b.record_data = omega arith in
    rw (enough, get_number-be_bytes 1 b.magic tail (omega (arith, m)))
      (rw (mark, get_number-be_bytes 4 len src (omega arith), same) (rw (long, left, size) refl))

encode_into-append :
    (b : RecordBatch) (rest : List ℕ)
    → encode_into b ++ rest
      ≡ be_bytes 1 b.magic
        ++ (be_bytes 4 ((48 + length b.record_data) % 2 ^ 32) ++ (covered b ++ rest))
unfolding encode_into covered
encode_into-append b rest =
    let len = be_bytes 4 ((48 + length b.record_data) % 2 ^ 32) in
    append_assoc (be_bytes 1 b.magic) (len ++ covered b) rest
    ∙ ap (λ l. be_bytes 1 b.magic ++ l) (append_assoc len (covered b) rest)

encoded_length : (b : RecordBatch) → length (encode_into b) ≡ encoded_size b
unfolding encode_into covered
encoded_length b =
    let len = be_bytes 4 ((48 + length b.record_data) % 2 ^ 32) in
    omega (
      arith,
      length-append (be_bytes 1 b.magic) (len ++ covered b),
      length-be_bytes 1 b.magic,
      length-append len (covered b),
      length-be_bytes 4 ((48 + length b.record_data) % 2 ^ 32),
      length-covered b,
    )

-- A batch with its checksum, whose fields are in the range of their types, is decoded as it was from
-- its encoding, whatever stands behind it, and takes just the bytes of its encoded size.
pub decode-encode_into :
    (crc32 : List ℕ → ℕ) (b : RecordBatch) (rest : List ℕ)
    → IsBatch b
    → calculate_crc crc32 b ≡ b.crc
    → (decode crc32 (encode_into b ++ rest) ≡ decoded b (encoded_size b))
      × (length (encode_into b) ≡ encoded_size b)
unfolding encode_into covered
decode-encode_into crc32 b rest good crc =
    let whole : ltb (length (covered b ++ rest)) (48 + length b.record_data) ≡ false =
      ground (arith, length-append (covered b) rest, length-covered b) in
    let right : verify_crc crc32 b ≡ true = rw crc (==_refl b.crc) in
    (
      rw (encode_into-append b rest) (
          decode-prefix crc32 b (covered b ++ rest) good
          ∙ rw whole (rw (read_fields-body b rest good) (rw right refl))),
      encoded_length b,
    )

take-behind : (xs ys : List ℕ) (k n : ℕ) → length xs + k ≡ n → take n (xs ++ ys) ≡ xs ++ take k ys
take-behind [] ys k n h = ap (λ m. take m ys) (omega arith)
take-behind (x ∷ xs) ys k zero h = absurd (omega arith)
take-behind (x ∷ xs) ys k (suc n) h = ap (λ l. x ∷ l) (take-behind xs ys k n (omega arith))

length-take_part : (n : ℕ) (xs : List ℕ) → n ≤ length xs → length (take n xs) ≡ n
length-take_part zero xs h = refl
length-take_part (suc n) [] h = absurd (omega arith)
length-take_part (suc n) (x ∷ xs) h = ap suc (length-take_part n xs (omega arith))

take-encode_into :
    (b : RecordBatch) (k : ℕ)
    → take (5 + k) (encode_into b)
      ≡ be_bytes 1 b.magic
        ++ (be_bytes 4 ((48 + length b.record_data) % 2 ^ 32) ++ take k (covered b))
unfolding encode_into covered
take-encode_into b k =
    let n = (48 + length b.record_data) % 2 ^ 32 in
    take-behind (be_bytes 1 b.magic) (be_bytes 4 n ++ covered b) (4 + k) (5 + k)
      (omega (arith, length-be_bytes 1 b.magic))
    ∙ ap (λ l. be_bytes 1 b.magic ++ l)
        (take-behind (be_bytes 4 n) (covered b) k (4 + k) (omega (arith, length-be_bytes 4 n)))

-- A part of the encoding of a batch, whose fields are in the range of their types, asks for more bytes
-- and is not taken for a corrupt batch.
pub decode-partial :
    (crc32 : List ℕ → ℕ) (b : RecordBatch) (n : ℕ)
    → IsBatch b
    → n < length (encode_into b)
    → decode crc32 (take n (encode_into b)) ≡ buffer_too_short
unfolding decode
decode-partial crc32 b n good lt =
    let size : length (encode_into b) ≡ 53 + length b.record_data = encoded_length b in
    elim (Bool-cases (ltb n 5)) [
      | inl e ↦
          let few : ltb (length (take n (encode_into b))) 5 ≡ true =
            ground (arith, length-take_part n (encode_into b)) in
          rw few refl
      | inr e ↦
          let k = n - 5 in
          let le = not_ltb→le n 5 e in
          let count : n ≡ 5 + k = omega arith in
          let part : ltb (length (take k (covered b))) (48 + length b.record_data) ≡ true =
            ground (arith, length-take_part k (covered b), length-covered b) in
          ap (λ m. decode crc32 (take m (encode_into b))) count
          ∙ ap (decode crc32) (take-encode_into b k)
          ∙ decode-prefix crc32 b (take k (covered b)) good
          ∙ rw part refl
    ]

-- Moving a batch to another base offset and leader epoch gives a batch that is decoded from its
-- encoding with those two in place and everything else as it was, whatever checksum it had before, if
-- its fields are in the range of their types and a checksum has 32 bits.
pub decode-assigned :
    (crc32 : List ℕ → ℕ) (b : RecordBatch) (base_offset leader_epoch : ℕ) (rest : List ℕ)
    → ((bytes : List ℕ) → crc32 bytes < 2 ^ 32)
    → IsBatch b
    → base_offset < 2 ^ 64
    → leader_epoch < 2 ^ 32
    → let b' = assign_base_offset_and_leader_epoch crc32 base_offset leader_epoch b in
      let moved = record b { base_offset = base_offset; leader_epoch = leader_epoch } in
      decode crc32 (encode_into b' ++ rest)
      ≡ decoded (record moved { crc = calculate_crc crc32 moved }) (encoded_size b)
unfolding assign_base_offset_and_leader_epoch body
decode-assigned crc32 b base_offset leader_epoch rest small (m, c, o, l, t, p, e, s, le, a, n, d)
      offset epoch =
    let b' = assign_base_offset_and_leader_epoch crc32 base_offset leader_epoch b in
    (decode-encode_into crc32 b' rest (m, small (body b'), offset, l, t, p, e, s, epoch, a, n, d)
      refl).0
