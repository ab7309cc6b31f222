-- ===== src/Segment/TxnIndex.antt =====
-- segment/txnindex.rs: `TxnIndexSegment`, the ranges of aborted transactions, with the file as in
-- `Segment.Index`.
pub mod Aborted
use bifrox.Prelude.{
  ℕ, ◌/◌, Bool, true, false, not, ◌&&◌, Option, none, some, List, [], ◌∷◌, ◌++◌, ltb, leb, any,
  length, take, drop, retain,
}
use bifrox.Prelude.Bytes.{be_bytes, of_be_bytes}
use bifrox.Segment.IndexFile.{Written, write_all, Rewritten, decode_all, rewrite}

pub record TxnIndexEntry : Type 0 where
  pub producer_id : ℕ
  pub first_offset : ℕ
  pub last_offset : ℕ

abbrev pub txn_index_entry_size : ℕ
txn_index_entry_size = 24

unfoldable pub encode : TxnIndexEntry → List ℕ
encode e = be_bytes 8 e.producer_id ++ (be_bytes 8 e.first_offset ++ be_bytes 8 e.last_offset)

unfoldable pub decode : List ℕ → TxnIndexEntry
decode bytes = record {
  producer_id = of_be_bytes (take 8 bytes);
  first_offset = of_be_bytes (take 8 (drop 8 bytes));
  last_offset = of_be_bytes (take 8 (drop 8 (drop 8 bytes)));
}

pub record TxnIndexSegment : Type 0 where
  pub file : List ℕ
  pub entries : List TxnIndexEntry

unfoldable pub open_file : List ℕ → TxnIndexSegment
open_file file = record {
  file = file;
  entries = decode_all decode txn_index_entry_size (length file / txn_index_entry_size) file;
}

-- After `write_all` comes `sync_data`, whose success is the Boolean argument.
abbrev pub appended :
    Bool × List ℕ → Bool → TxnIndexEntry → TxnIndexSegment → Bool × TxnIndexSegment
appended (true, file) true e s = (true, record { file = file; entries = s.entries ++ (e ∷ []) })
appended (true, file) false e s = (false, record s { file = file })
appended (false, file) synced e s = (false, record s { file = file })

unfoldable pub append : Written → Bool → ℕ → ℕ → ℕ → TxnIndexSegment → Bool × TxnIndexSegment
append w synced producer_id first_offset last_offset s =
    let e : TxnIndexEntry = record {
      producer_id = producer_id;
      first_offset = first_offset;
      last_offset = last_offset;
    } in
    appended (write_all w (encode e) s.file) synced e s

unfoldable pub is_aborted : ℕ → TxnIndexSegment → Bool
is_aborted offset s = any (λ e. leb e.first_offset offset && leb offset e.last_offset) s.entries

unfoldable pub truncate_after : Rewritten → ℕ → TxnIndexSegment → Bool × TxnIndexSegment
truncate_after w offset s =
    let kept = retain (λ e. ltb e.first_offset offset) s.entries in
    let (ok, entries, file) = rewrite encode txn_index_entry_size w kept (s.entries, s.file) in
    (ok, record { file = file; entries = entries })
