-- ===== src/Segment/Index/Reopen.antt =====
-- The offset index's file, read back.
use bifrox.Prelude.{
  ℕ, ◌-◌, ◌/◌, ◌%◌, ◌^◌, ◌<◌, ◌≡◌, refl, sym, ap, subst, ◌∙◌, Bool, true, false, List, [], ◌∷◌,
  ◌++◌, leb, if◌then◌else◌, length, take, All, All-append, All-retain, length-append, take-append,
  take_all, length-take, drop-append, not_leb→lt, arith,
}
use mathlib.Core.List.{append-nil}
use bifrox.Prelude.Bytes.{be_bytes, length-be_bytes, of_be_bytes-be_bytes}
use bifrox.Segment.IndexFile.{
  completes, fails_after, write_all, done, rewrite, encode_all, decode_all, encode_all-append,
  length-encode_all, decode_all-encode_all,
}
use bifrox.Segment.Index.{
  IndexEntry, IndexSegment, encode, decode, open_file, relative, append, appended,
  truncate_and_rebuild, truncate_after,
}

abbrev pub Fits : IndexEntry → Type 0
Fits e = (e.relative_offset < 2 ^ 32) × (e.physical_position < 2 ^ 32)

pub length-encode : (e : IndexEntry) → length (encode e) ≡ 8
unfolding encode
length-encode e = omega (
  arith,
  length-append (be_bytes 4 e.relative_offset) (be_bytes 4 e.physical_position),
  length-be_bytes 4 e.relative_offset,
  length-be_bytes 4 e.physical_position,
)

pub decode-encode : (e : IndexEntry) → Fits e → decode (encode e) ≡ e
unfolding encode decode
decode-encode e (r, p) =
    let high = be_bytes 4 e.relative_offset in
    let low = be_bytes 4 e.physical_position in
    let four = length-be_bytes 4 e.relative_offset in
    rw
      (
        take-append high low 4 four,
        drop-append high low 4 four,
        take_all low 4 (length-be_bytes 4 e.physical_position),
        of_be_bytes-be_bytes 4 e.relative_offset (omega arith),
        of_be_bytes-be_bytes 4 e.physical_position (omega arith),
      )
      refl

-- The file holds the entries in memory and nothing else.
abbrev pub InStep : IndexSegment → Type 0
InStep s = (s.file ≡ encode_all encode s.entries) × All Fits s.entries

-- Opening the file of entries gives the entries, with a torn entry behind them ignored.
pub open_file-encode_all :
    (es : List IndexEntry) (tail : List ℕ) (base : ℕ)
    → All Fits es
    → length tail < 8
    → (open_file (encode_all encode es ++ tail) base).entries ≡ es
unfolding open_file
open_file-encode_all es tail base fits short =
    let count : length (encode_all encode es ++ tail) / 8 ≡ length es = omega (
      arith,
      length-append (encode_all encode es) tail,
      length-encode_all encode 8 es length-encode,
    ) in
    rw count (decode_all-encode_all encode decode 8 Fits es tail length-encode decode-encode fits)

pub data Operation : Type 0 where
  appends : ℕ → ℕ → Operation
  truncates : ℕ → Operation

-- An operation whose writes all succeed.
unfoldable pub apply : Operation → IndexSegment → IndexSegment
apply (appends offset position) s = (append completes offset position s).1
apply (truncates offset) s = (truncate_after done offset s).1

unfoldable pub apply_all : List Operation → IndexSegment → IndexSegment
apply_all [] s = s
apply_all (op ∷ ops) s = apply_all ops (apply op s)

appended-InStep :
    (b : Bool) (e : IndexEntry) (s : IndexSegment)
    → (b ≡ false → Fits e)
    → InStep s
    → InStep (if b then (false, s) else appended (true, s.file ++ encode e) e s).1
appended-InStep true e s new (same, fits) = (same, fits)
appended-InStep false e s new (same, fits) = (
  rw (encode_all-append encode s.entries e) (ap (λ f. f ++ encode e) same),
  All-append Fits s.entries (e ∷ []) fits (new refl, tt),
)

apply-InStep : (op : Operation) (s : IndexSegment) → InStep s → InStep (apply op s)
unfolding apply append truncate_after truncate_and_rebuild rewrite write_all relative
apply-InStep (appends offset position) s h =
    appended-InStep (leb (2 ^ 32) position)
      (record { relative_offset = (offset - s.base_offset) % 2 ^ 32; physical_position = position })
      s (λ small. (omega arith, not_leb→lt (2 ^ 32) position small)) h
apply-InStep (truncates offset) s (e, fits) = (refl, All-retain Fits _ s.entries fits)

base_offset-apply : (op : Operation) (s : IndexSegment) → (apply op s).base_offset ≡ s.base_offset
unfolding apply append truncate_after truncate_and_rebuild write_all
base_offset-apply (appends offset position) s = ground arith
base_offset-apply (truncates offset) s = refl

opened : (s : IndexSegment) → InStep s → open_file s.file s.base_offset ≡ s
unfolding open_file
opened s (e, fits) =
    ap (λ es. record s { entries = es })
      (subst (λ f. (open_file f s.base_offset).entries ≡ s.entries)
        (append-nil (encode_all encode s.entries) ∙ sym e)
        (open_file-encode_all s.entries [] s.base_offset fits (omega arith)))

apply_all_keeps :
    (ops : List Operation) (s : IndexSegment)
    → InStep s
    → InStep (apply_all ops s) × ((apply_all ops s).base_offset ≡ s.base_offset)
unfolding apply_all
apply_all_keeps [] s h = (h, refl)
apply_all_keeps (op ∷ ops) s h =
    let (h', b) = apply_all_keeps ops (apply op s) (apply-InStep op s h) in
    (h', b ∙ base_offset-apply op s)

torn :
    (b : Bool) (e : IndexEntry) (k : ℕ) (s : IndexSegment)
    → InStep s
    → k < 8
    → (open_file
        (if b then (false, s) else appended (false, s.file ++ take k (encode e)) e s).1.file
        s.base_offset).entries
      ≡ s.entries
torn true e k s h short = ap (λ t. t.entries) (opened s h)
torn false e k s (same, fits) short =
    subst (λ f. (open_file (f ++ take k (encode e)) s.base_offset).entries ≡ s.entries) (sym same)
      (open_file-encode_all s.entries (take k (encode e)) s.base_offset fits
        (omega (arith, length-take k (encode e))))

torn_append :
    (offset position k : ℕ) (s : IndexSegment)
    → InStep s
    → k < 8
    → (open_file (append (fails_after k) offset position s).1.file s.base_offset).entries
      ≡ s.entries
unfolding append write_all
torn_append offset position k s h short = torn (leb (2 ^ 32) position) _ k s h short

empty-InStep : (base : ℕ) → InStep (open_file [] base)
unfolding open_file encode_all decode_all
empty-InStep base = (refl, tt)

-- After any sequence of appends and truncations whose writes succeed, on an empty file, opening the
-- file again gives the same entries; and it still does when a further append tears, that is, stops
-- before the last byte of its entry.
pub open_file-apply_all :
    (ops : List Operation) (base offset position k : ℕ)
    → k < 8
    → let s = apply_all ops (open_file [] base) in
      (open_file s.file base ≡ s)
      × ((open_file (append (fails_after k) offset position s).1.file base).entries ≡ s.entries)
unfolding open_file
open_file-apply_all ops base offset position k short =
    let s = apply_all ops (open_file [] base) in
    let (h, b) = apply_all_keeps ops (open_file [] base) (empty-InStep base) in
    (
      subst (λ n. open_file s.file n ≡ s) b (opened s h),
      subst
          (λ n. (open_file (append (fails_after k) offset position s).1.file n).entries ≡ s.entries)
          b (torn_append offset position k s h short),
    )
