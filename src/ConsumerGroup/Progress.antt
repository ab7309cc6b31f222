-- ===== src/ConsumerGroup/Progress.antt =====
-- consumer_group.rs: the bytes that reading a frame takes.
use bifrox.Prelude.{
  ℕ, suc, ◌≤◌, ◌<◌, ◌≡◌, subst, inl, inr, Bool, true, false, List, [], ◌∷◌, ltb, ◌==◌,
  if◌then◌else◌, length, Bool-cases, arith,
}
use bifrox.Prelude.Text.{Text}
use bifrox.Prelude.Bytes.{of_be_bytes}
use bifrox.ConsumerGroup.{
  Entry, consumer_offsets_magic, compute_crc, Reading, short, corrupt, got, and_then, read_bytes,
  read_text, entry_of, read_fields, read_frame,
}
use bifrox.ConsumerGroup.RoundTrip.{length-drop}

module _ {A : Type 0} where
  -- The bytes that are left are no more than a bound.
  abbrev Within : ℕ → Reading A → Type 0
  Within n short = Unit
  Within n corrupt = Unit
  Within n (got a rest) = length rest ≤ n

module _ {A B : Type 0} where
  then-Within :
      (n : ℕ) (o : Reading A) (k : A → List ℕ → Reading B)
      → Within n o
      → ((a : A) (rest : List ℕ) → Within (length rest) (k a rest))
      → Within n (and_then o k)
  then-Within n short k h second = tt
  then-Within n corrupt k h second = tt
  then-Within n (got a rest) k h second = go (k a rest) (second a rest)
    where
      go : (o : Reading B) → Within (length rest) o → Within n o
      go short h' = tt
      go corrupt h' = tt
      go (got b rest') h' = omega arith

read_bytes-Within : (n : ℕ) (buf : List ℕ) → Within (length buf) (read_bytes n buf)
unfolding read_bytes
read_bytes-Within n buf = elim (Bool-cases (ltb (length buf) n)) [
  | inl e ↦ rw e tt
  | inr e ↦ rw e (omega (arith, length-drop n buf))
]

choice-Within :
    {A : Type 0} (b : Bool) (a : A) (rest : List ℕ)
    → Within (length rest) (if b then got a rest else corrupt)
choice-Within true a rest = omega arith
choice-Within false a rest = tt

read_text-Within :
    (is_utf8 : Text → Bool) (buf : List ℕ) → Within (length buf) (read_text is_utf8 buf)
unfolding read_text
read_text-Within is_utf8 buf =
    then-Within (length buf) (read_bytes 2 buf) _ (read_bytes-Within 2 buf) (λ len rest.
      then-Within (length rest) (read_bytes (of_be_bytes len) rest) _
        (read_bytes-Within (of_be_bytes len) rest) (λ s rest'. choice-Within (is_utf8 s) s rest'))

read_fields-Within :
    (is_utf8 : Text → Bool) (crc32 : Text → ℕ) (buf : List ℕ)
    → Within (length buf) (read_fields is_utf8 crc32 buf)
read_fields-Within is_utf8 crc32 buf =
    then-Within (length buf) (read_text is_utf8 buf) _ (read_text-Within is_utf8 buf)
      (λ group_id c1.
        then-Within (length c1) (read_text is_utf8 c1) _ (read_text-Within is_utf8 c1) (λ topic c2.
          then-Within (length c2) (read_bytes 12 c2) _ (read_bytes-Within 12 c2) (λ numbers c3.
            then-Within (length c3) (read_text is_utf8 c3) _ (read_text-Within is_utf8 c3)
              (λ metadata c4.
                then-Within (length c4) (read_bytes 4 c4) _ (read_bytes-Within 4 c4) (λ crc rest.
                  choice-Within
                    (of_be_bytes crc
                      == compute_crc crc32 (entry_of group_id topic numbers metadata))
                    (entry_of group_id topic numbers metadata) rest)))))

got-Within :
    (n : ℕ) (o : Reading Entry) (e : Entry) (rest : List ℕ)
    → Within n o
    → o ≡ got e rest
    → length rest ≤ n
got-Within n o e rest h same = subst (Within n) same h

-- A frame that is read takes at least a byte.
pub read_frame_shrinks :
    (is_utf8 : Text → Bool) (crc32 : Text → ℕ) (buf : List ℕ) (e : Entry) (rest : List ℕ)
    → read_frame is_utf8 crc32 buf ≡ got e rest
    → length rest < length buf
unfolding read_frame
read_frame_shrinks is_utf8 crc32 [] e rest h = cc h
read_frame_shrinks is_utf8 crc32 (magic ∷ buf) e rest h =
    elim (Bool-cases (magic == consumer_offsets_magic)) [
      | inl c ↦
          let fits =
            got-Within (length buf) (read_fields is_utf8 crc32 buf) e rest
              (read_fields-Within is_utf8 crc32 buf) in
          go (magic == consumer_offsets_magic) c h fits
      | inr c ↦ absurd (corrupt_not_got (magic == consumer_offsets_magic) c h)
    ]
  where
    go :
        (b : Bool)
        → b ≡ true
        → (if b then read_fields is_utf8 crc32 buf else corrupt) ≡ got e rest
        → (read_fields is_utf8 crc32 buf ≡ got e rest → length rest ≤ length buf)
        → length rest < suc (length buf)
    go true c h fits = omega (arith, fits h)
    go false c h fits = cc c

    corrupt_not_got :
        (b : Bool)
        → b ≡ false
        → (if b then read_fields is_utf8 crc32 buf else corrupt) ≡ got e rest
        → ⊥
    corrupt_not_got true c h = cc c
    corrupt_not_got false c h = cc h
