-- ===== src/ConsumerGroup/Frames.antt =====
-- consumer_group.rs: reading from a buffer to which more bytes may come.
use bifrox.Prelude.{
  ℕ, zero, suc, ◌≤◌, ◌≡◌, refl, ap, inl, inr, Bool, true, false, List, [], ◌∷◌, ◌++◌, ltb, ◌==◌,
  if◌then◌else◌, length, take, drop, length-append, Bool-cases, not_ltb→le, arith,
}
use bifrox.Prelude.Text.{Text}
use bifrox.Prelude.Bytes.{of_be_bytes}
use bifrox.ConsumerGroup.{
  consumer_offsets_magic, compute_crc, Reading, short, corrupt, got, and_then, read_bytes,
  read_text, entry_of, read_fields, read_frame,
}

module _ {A : Type 0} where
  -- The second reading is the first one with more bytes behind it.
  abbrev pub Extends : List ℕ → Reading A → Reading A → Type 0
  Extends more short o = Unit
  Extends more corrupt o = o ≡ corrupt
  Extends more (got a rest) o = o ≡ got a (rest ++ more)

  abbrev pub Stable : (List ℕ → Reading A) → Type 0
  Stable p = (buf more : List ℕ) → Extends more (p buf) (p (buf ++ more))

pub take-prefix : (n : ℕ) (xs ys : List ℕ) → n ≤ length xs → take n (xs ++ ys) ≡ take n xs
take-prefix zero xs ys h = refl
take-prefix (suc n) [] ys h = absurd (omega arith)
take-prefix (suc n) (x ∷ xs) ys h = ap (λ l. x ∷ l) (take-prefix n xs ys (omega arith))

drop-prefix : (n : ℕ) (xs ys : List ℕ) → n ≤ length xs → drop n (xs ++ ys) ≡ drop n xs ++ ys
drop-prefix zero xs ys h = refl
drop-prefix (suc n) [] ys h = absurd (omega arith)
drop-prefix (suc n) (x ∷ xs) ys h = drop-prefix n xs ys (omega arith)

read_bytes-Stable : (n : ℕ) → Stable (read_bytes n)
unfolding read_bytes
read_bytes-Stable n buf more = elim (Bool-cases (ltb (length buf) n)) [
  | inl e ↦ rw e tt
  | inr e ↦
      let enough = not_ltb→le (length buf) n e in
      rw (e, take-prefix n buf more enough, drop-prefix n buf more enough)
        (ground (arith, length-append buf more))
]

module _ {A B : Type 0} where
  then-Extends :
      (more : List ℕ) (o o' : Reading A) (k : A → List ℕ → Reading B)
      → ((a : A) → Stable (k a))
      → Extends more o o'
      → Extends more (and_then o k) (and_then o' k)
  then-Extends more short o' k stable h = tt
  then-Extends more corrupt o' k stable h = rw h refl
  then-Extends more (got a rest) o' k stable h = rw h (stable a rest more)

  -- Two stable readings, one after the other.
  then-Stable :
      (p : List ℕ → Reading A) (k : A → List ℕ → Reading B)
      → Stable p
      → ((a : A) → Stable (k a))
      → Stable (λ buf. and_then (p buf) k)
  then-Stable p k first second buf more =
      then-Extends more (p buf) (p (buf ++ more)) k second (first buf more)

choice-Stable : {A : Type 0} (b : Bool) (a : A) → Stable (λ rest. if b then got a rest else corrupt)
choice-Stable true a rest more = refl
choice-Stable false a rest more = refl

read_text-Stable : (is_utf8 : Text → Bool) → Stable (read_text is_utf8)
unfolding read_text
read_text-Stable is_utf8 = then-Stable (read_bytes 2) _ (read_bytes-Stable 2) (λ len.
    then-Stable (read_bytes (of_be_bytes len)) _ (read_bytes-Stable (of_be_bytes len))
      (λ s. choice-Stable (is_utf8 s) s))

read_fields-Stable : (is_utf8 : Text → Bool) (crc32 : Text → ℕ) → Stable (read_fields is_utf8 crc32)
read_fields-Stable is_utf8 crc32 =
    then-Stable (read_text is_utf8) _ (read_text-Stable is_utf8) (λ group_id.
      then-Stable (read_text is_utf8) _ (read_text-Stable is_utf8) (λ topic.
        then-Stable (read_bytes 12) _ (read_bytes-Stable 12) (λ numbers.
          then-Stable (read_text is_utf8) _ (read_text-Stable is_utf8) (λ metadata.
            then-Stable (read_bytes 4) _ (read_bytes-Stable 4) (λ crc.
              choice-Stable
                (of_be_bytes crc == compute_crc crc32 (entry_of group_id topic numbers metadata))
                (entry_of group_id topic numbers metadata))))))

pub read_frame-Stable :
    (is_utf8 : Text → Bool) (crc32 : Text → ℕ) → Stable (read_frame is_utf8 crc32)
unfolding read_frame
read_frame-Stable is_utf8 crc32 [] more = tt
read_frame-Stable is_utf8 crc32 (magic ∷ buf) more =
    elim (Bool-cases (magic == consumer_offsets_magic)) [
      | inl e ↦ rw e (read_fields-Stable is_utf8 crc32 buf more)
      | inr e ↦ rw e refl
    ]
