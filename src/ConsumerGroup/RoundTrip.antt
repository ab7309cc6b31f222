-- ===== src/ConsumerGroup/RoundTrip.antt =====
-- consumer_group.rs: a frame that was written, whole or in part.
use mathlib.Core.List.{append_assoc, append-nil}
use bifrox.Prelude.{
  ℕ, zero, suc, ◌-◌, ◌%◌, ◌^◌, ◌≤◌, ◌<◌, ◌≡◌, refl, sym, ap, subst, ◌∙◌, Bool, true, List, [], ◌∷◌,
  ◌++◌, ==_refl, length, take, drop, length-append, take-append, drop-append, arith,
}
use bifrox.Prelude.Text.{Text}
use bifrox.Prelude.Bytes.{be_bytes, length-be_bytes, of_be_bytes-be_bytes}
use bifrox.ConsumerGroup.{
  Entry, checked_bytes, compute_crc, text_bytes, frame, Reading, short, corrupt, got, read_bytes,
  read_text, entry_of, check, read_frame,
}
use bifrox.ConsumerGroup.Frames.{Extends, read_frame-Stable}

-- A commit whose fields are in the range of their types, with strings that a length of 16 bits fits.
abbrev pub Fits : (Text → Bool) → Text → Type 0
Fits is_utf8 s = (is_utf8 s ≡ true) × (length s ≤ 65535)

abbrev pub IsEntry : (Text → Bool) → Entry → Type 0
IsEntry is_utf8 ((group_id, topic, partition), entry) =
    Fits is_utf8 group_id
    × Fits is_utf8 topic
    × (partition < 2 ^ 32)
    × (entry.offset < 2 ^ 64)
    × Fits is_utf8 entry.metadata

pub read_bytes-append :
    (n : ℕ) (xs ys : List ℕ) → length xs ≡ n → read_bytes n (xs ++ ys) ≡ got xs ys
unfolding read_bytes
read_bytes-append n xs ys h =
    rw (take-append xs ys n h, drop-append xs ys n h) (ground (arith, length-append xs ys))

read_text-text_bytes :
    (is_utf8 : Text → Bool) (s : Text) (rest : List ℕ)
    → Fits is_utf8 s
    → read_text is_utf8 (text_bytes s ++ rest) ≡ got s rest
unfolding read_text
read_text-text_bytes is_utf8 s rest (valid, fits) =
    let len = length s % 2 ^ 16 in
    let same : len ≡ length s = omega arith in
    rw
      (
        append_assoc (be_bytes 2 len) s rest,
        read_bytes-append 2 (be_bytes 2 len) (s ++ rest) (length-be_bytes 2 len),
        of_be_bytes-be_bytes 2 len (omega arith),
        same,
        read_bytes-append (length s) s rest refl,
        valid,
      )
      refl

numbers-length : (partition offset : ℕ) → length (be_bytes 4 partition ++ be_bytes 8 offset) ≡ 12
numbers-length partition offset = omega (
  arith,
  length-append (be_bytes 4 partition) (be_bytes 8 offset),
  length-be_bytes 4 partition,
  length-be_bytes 8 offset,
)

entry_of-bytes :
    (group_id topic metadata : Text) (partition offset : ℕ)
    → partition < 2 ^ 32
    → offset < 2 ^ 64
    → entry_of group_id topic (be_bytes 4 partition ++ be_bytes 8 offset) metadata
      ≡ ((group_id, topic, partition), record { offset = offset; metadata = metadata })
entry_of-bytes group_id topic metadata partition offset p o =
    rw
      (
        take-append (be_bytes 4 partition) (be_bytes 8 offset) 4 (length-be_bytes 4 partition),
        drop-append (be_bytes 4 partition) (be_bytes 8 offset) 4 (length-be_bytes 4 partition),
        of_be_bytes-be_bytes 4 partition p,
        of_be_bytes-be_bytes 8 offset o,
      )
      refl

-- A checksum is a 32-bit number.
abbrev pub IsCrc : (Text → ℕ) → Type 0
IsCrc crc32 = (bytes : Text) → crc32 bytes < 2 ^ 32

check-entry :
    (crc32 : Text → ℕ) (e e' : Entry) (rest : List ℕ)
    → IsCrc crc32
    → e' ≡ e
    → check crc32 e' (be_bytes 4 (compute_crc crc32 e)) rest ≡ got e rest
check-entry crc32 e e' rest small same =
    subst (λ x. check crc32 x (be_bytes 4 (compute_crc crc32 e)) rest ≡ got e rest) (sym same)
      (rw
        (
          of_be_bytes-be_bytes 4 (compute_crc crc32 e) (small (checked_bytes e)),
          ==_refl (compute_crc crc32 e),
        )
        refl)

pub read_frame-frame :
    (is_utf8 : Text → Bool) (crc32 : Text → ℕ) (e : Entry) (rest : List ℕ)
    → IsCrc crc32
    → IsEntry is_utf8 e
    → read_frame is_utf8 crc32 (frame crc32 e ++ rest) ≡ got e rest
unfolding read_frame frame
read_frame-frame is_utf8 crc32 ((group_id, topic, partition), entry) rest small (g, t, p, o, m) =
    let e : Entry = ((group_id, topic, partition), entry) in
    let crc = be_bytes 4 (compute_crc crc32 e) in
    let meta = text_bytes entry.metadata ++ crc in
    let numbers = be_bytes 4 partition ++ be_bytes 8 entry.offset in
    rw
      (
        append_assoc (text_bytes group_id) (text_bytes topic ++ (numbers ++ meta)) rest,
        read_text-text_bytes is_utf8 group_id ((text_bytes topic ++ (numbers ++ meta)) ++ rest) g,
      )
      (rw
        (
          append_assoc (text_bytes topic) (numbers ++ meta) rest,
          read_text-text_bytes is_utf8 topic ((numbers ++ meta) ++ rest) t,
        )
        (rw
          (
            append_assoc numbers meta rest,
            read_bytes-append 12 numbers (meta ++ rest) (numbers-length partition entry.offset),
          )
          (rw
            (
              append_assoc (text_bytes entry.metadata) crc rest,
              read_text-text_bytes is_utf8 entry.metadata (crc ++ rest) m,
            )
            (rw (read_bytes-append 4 crc rest (length-be_bytes 4 (compute_crc crc32 e))) (
              check-entry crc32 e (entry_of group_id topic numbers entry.metadata) rest small
                (entry_of-bytes group_id topic entry.metadata partition entry.offset p o))))))

no_rest : (xs ys : List ℕ) → [] ≡ xs ++ ys → length ys ≡ 0
no_rest xs ys h = let n = ap length h in omega (arith, n, length-append xs ys)

pub length-drop : (n : ℕ) (xs : List ℕ) → length (drop n xs) ≡ length xs - n
length-drop zero xs = omega arith
length-drop (suc n) [] = omega arith
length-drop (suc n) (x ∷ xs) = omega (arith, length-drop n xs)

take-drop : (n : ℕ) (xs : List ℕ) → take n xs ++ drop n xs ≡ xs
take-drop zero xs = refl
take-drop (suc n) [] = refl
take-drop (suc n) (x ∷ xs) = ap (λ l. x ∷ l) (take-drop n xs)

rest_of : Reading Entry → List ℕ
rest_of short = []
rest_of corrupt = []
rest_of (got e rest) = rest

-- A part of a frame is too short to be read.
pub read_frame-torn :
    (is_utf8 : Text → Bool) (crc32 : Text → ℕ) (e : Entry) (n : ℕ)
    → IsCrc crc32
    → IsEntry is_utf8 e
    → n < length (frame crc32 e)
    → read_frame is_utf8 crc32 (take n (frame crc32 e)) ≡ short
unfolding rest_of
read_frame-torn is_utf8 crc32 e n small good lt =
    go (read_frame is_utf8 crc32 (take n (frame crc32 e))) (
      subst
        (λ bytes.
          Extends (drop n (frame crc32 e)) (read_frame is_utf8 crc32 (take n (frame crc32 e)))
            (read_frame is_utf8 crc32 bytes))
        (take-drop n (frame crc32 e))
        (read_frame-Stable is_utf8 crc32 (take n (frame crc32 e)) (drop n (frame crc32 e))))
  where
    whole : read_frame is_utf8 crc32 (frame crc32 e) ≡ got e []
    whole =
        subst (λ bytes. read_frame is_utf8 crc32 bytes ≡ got e []) (append-nil (frame crc32 e))
          (read_frame-frame is_utf8 crc32 e [] small good)

    go :
        (o : Reading Entry)
        → Extends (drop n (frame crc32 e)) o (read_frame is_utf8 crc32 (frame crc32 e))
        → o ≡ short
    go short h = refl
    go corrupt h = cc (h, whole)
    go (got a rest) h =
        let none_left = no_rest rest (drop n (frame crc32 e)) (ap rest_of (sym whole ∙ h)) in
        absurd (omega (arith, none_left, length-drop n (frame crc32 e)))
