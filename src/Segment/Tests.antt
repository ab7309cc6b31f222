-- ===== src/Segment/Tests.antt =====
-- Runs of the index files, and their theorems at concrete inputs.
use bifrox.Prelude.{
  ℕ, zero, suc, ◌≤◌, ◌<◌, ◌≡◌, inl, inr, refl, true, false, ◌&&◌, ◌||◌, some, List, [], ◌∷◌, All,
  ltb, leb, ◌==◌, if◌then◌else◌, get_elem?, arith, Bool-cases, ap, ltb→lt, not_ltb→le, ==_iff,
}
use bifrox.Segment.IndexFile.{completes, fails_after, done}
use bifrox.Segment.Search.{Search, Found, found, missing, Answers, SearchesOrdered, All-get}
use bifrox.Segment.Index
use bifrox.Segment.Index.{IndexEntry, IndexSegment}
use bifrox.Segment.Index.Reopen
use bifrox.Segment.Index.Lookup.{IsNearest, find_nearest_physical_pos-IsNearest}
use bifrox.Segment.TimeIndex
use bifrox.Segment.TimeIndex.{TimeIndexEntry}
use bifrox.Segment.TimeIndex.Order
use bifrox.Segment.TimeIndex.Lookup.{IsAnswer, find_offset_for_timestamp-IsAnswer}
use bifrox.Segment.TxnIndex
use bifrox.Segment.TxnIndex.{TxnIndexSegment}
use bifrox.Segment.TxnIndex.Aborted.{is_aborted-append}

abbrev shift : Found → Found
shift (found i) = found (suc i)
shift (missing i) = missing (suc i)

-- A search from the front, which keeps to the documentation of the binary search.
unfoldable linear : Search
linear [] x = missing 0
linear (k ∷ ks) x =
    let rest = linear ks x in if k == x then found 0 else if ltb x k then missing 0 else shift rest

head_above :
    (x k : ℕ) (ks : List ℕ) (j y : ℕ)
    → x < k
    → All (λ y. k ≤ y) ks
    → get_elem? (k ∷ ks) j ≡ some y
    → x < y
head_above x k ks zero y h hs e = let same : k ≡ y = cc e in omega arith
head_above x k ks (suc j) y h hs e = let le = All-get (λ w. k ≤ w) ks j y hs e in omega arith

below_shifted :
    (k x i : ℕ) (ks : List ℕ) (j y : ℕ)
    → k < x
    → ((j y : ℕ) → get_elem? ks j ≡ some y → j < i → y < x)
    → get_elem? (k ∷ ks) j ≡ some y
    → j < suc i
    → y < x
below_shifted k x i ks zero y h below e lt = let same : k ≡ y = cc e in omega arith
below_shifted k x i ks (suc j) y h below e lt = below j y e (omega arith)

above_shifted :
    (k x i : ℕ) (ks : List ℕ) (j y : ℕ)
    → ((j y : ℕ) → get_elem? ks j ≡ some y → i ≤ j → x < y)
    → get_elem? (k ∷ ks) j ≡ some y
    → suc i ≤ j
    → x < y
above_shifted k x i ks zero y above e le = absurd (omega arith)
above_shifted k x i ks (suc j) y above e le = above j y e (omega arith)

shifted :
    (k x : ℕ) (ks : List ℕ) (f : Found) → k < x → Answers ks x f → Answers (k ∷ ks) x (shift f)
shifted k x ks (found i) h a = a
shifted k x ks (missing i) h (inside, below, above) = (
  omega (arith, inside),
  (λ j y e lt. below_shifted k x i ks j y h below e lt),
  (λ j y e le. above_shifted k x i ks j y above e le),
)

strictly : (k x : ℕ) → (k == x) ≡ false → k ≤ x → k < x
strictly k x n h = ground arith

linear-SearchesOrdered : SearchesOrdered linear
unfolding linear
linear-SearchesOrdered [] x h = (omega arith, (λ j y e. cc e), (λ j y e. cc e))
linear-SearchesOrdered (k ∷ ks) x (h, hs) =
    let rest = linear-SearchesOrdered ks x hs in
    elim (Bool-cases (k == x)) [
      | inl e ↦ rw e (ap some ((==_iff k x).0 e))
      | inr n ↦ elim (Bool-cases (ltb x k)) [
        | inl lt ↦
            rw (n, lt)
              (
                omega arith,
                (λ j y e less. absurd (omega arith)),
                (λ j y e le. head_above x k ks j y (ltb→lt x k lt) h e),
              )
        | inr ge ↦
            rw (n, ge) (shifted k x ks (linear ks x) (strictly k x n (not_ltb→le x k ge)) rest)
      ]
    ]

abbrev two_entries : IndexSegment
two_entries = record {
  file = [];
  entries =
      record { relative_offset = 0; physical_position = 0 }
      ∷ record { relative_offset = 10; physical_position = 4096 }
      ∷ [];
  base_offset = 100;
}

find_nearest_physical_pos-IsNearest_example :
    (e : IndexEntry) × (Index.find_nearest_physical_pos linear 115 two_entries ≡ some e)
    × IsNearest 15 e two_entries.entries
find_nearest_physical_pos-IsNearest_example =
    find_nearest_physical_pos-IsNearest linear 115 two_entries linear-SearchesOrdered
      ((omega arith, tt), (tt, tt)) (omega arith) (omega arith)

finds_second :
    Index.find_nearest_physical_pos linear 115 two_entries
    ≡ some (record { relative_offset = 10; physical_position = 4096 })
unfolding Index.find_nearest_physical_pos Index.relative Index.nearest linear
finds_second = refl

abbrev two_appends : List Reopen.Operation
two_appends = Reopen.appends 100 0 ∷ Reopen.appends 110 4096 ∷ Reopen.truncates 105 ∷ []

open_file-apply_all_example :
    let s = Reopen.apply_all two_appends (Index.open_file [] 100) in
    (Index.open_file s.file 100 ≡ s)
    × ((Index.open_file (Index.append (fails_after 3) 120 9000 s).1.file 100).entries ≡ s.entries)
open_file-apply_all_example = Reopen.open_file-apply_all two_appends 100 120 9000 3 (omega arith)

abbrev late_record : List Order.Operation
late_record =
    Order.appends completes 50 0
    ∷ Order.appends completes 40 10
    ∷ Order.appends completes 60 20
    ∷ []

find_offset_for_timestamp-IsAnswer_example :
    let s = Order.apply_all late_record (TimeIndex.open_file [] 0) in
    IsAnswer 55 s.entries (TimeIndex.find_offset_for_timestamp linear 55 s)
find_offset_for_timestamp-IsAnswer_example =
    find_offset_for_timestamp-IsAnswer linear late_record 0 55 linear-SearchesOrdered

abbrev no_ranges : TxnIndexSegment
no_ranges = record { file = []; entries = [] }

is_aborted-append_example :
    ((o : ℕ)
      → TxnIndex.is_aborted o (TxnIndex.append completes true 7 10 20 no_ranges).1
        ≡ (TxnIndex.is_aborted o no_ranges || (leb 10 o && leb o 20)))
    × ((o : ℕ)
        → o < 15
        → TxnIndex.is_aborted o (TxnIndex.truncate_after done 15 no_ranges).1
          ≡ TxnIndex.is_aborted o no_ranges)
is_aborted-append_example = is_aborted-append 7 10 20 15 no_ranges
