-- ===== src/ConsumerGroup/Losses.antt =====
-- consumer_group.rs: a failed write.
use mathlib.Core.List.{append_assoc}
use bifrox.Prelude.{
  ℕ, suc, ◌+◌, ◌*◌, ◌%◌, ◌^◌, ◌≤◌, ◌<◌, ◌≡◌, refl, sym, ap, subst, ◌∙◌, inl, inr, Bool, true, false,
  not, ◌||◌, List, [], ◌∷◌, ◌++◌, ltb, length, take, length-append, Bool-cases, lt→ltb, ltb→lt,
  length-take, ◌/◌, All, arith,
}
use bifrox.Prelude.Text.{Text}
use bifrox.Prelude.Table.{insert}
use bifrox.Prelude.Bytes.{be_bytes, length-be_bytes, of_be_bytes-be_bytes}
use bifrox.ConsumerGroup.{
  Entry, group_key, compute_crc, text_bytes, frame, frames, Reading, short, read_bytes, read_text,
  read_frame, ConsumerGroupManager, open_log, commit_offset_with_metadata,
}
use bifrox.ConsumerGroup.Frames.{take-prefix}
use bifrox.ConsumerGroup.RoundTrip.{IsEntry, IsCrc, read_bytes-append}
use bifrox.ConsumerGroup.Chunks.{joined, IsRead}
use bifrox.ConsumerGroup.Logged.{inserted}
use bifrox.ConsumerGroup.Commits.{
  Commit, value, commit, commit_all, AllAcked, empty, commit_all-Logged, reopened_same, take_enough,
}

read_text-cut :
    (is_utf8 : Text → Bool) (n : ℕ) (rest : List ℕ)
    → n ≤ 65535
    → length rest < n
    → read_text is_utf8 (be_bytes 2 (n % 2 ^ 16) ++ rest) ≡ short
unfolding read_text read_bytes
read_text-cut is_utf8 n rest fits lt =
    let len = n % 2 ^ 16 in
    let same : len ≡ n = omega arith in
    let first : read_bytes 2 (be_bytes 2 len ++ rest) ≡ Reading.got (be_bytes 2 len) rest =
      read_bytes-append 2 (be_bytes 2 len) rest (length-be_bytes 2 len) in
    rw first (rw (of_be_bytes-be_bytes 2 len (omega arith), same, lt→ltb (length rest) n lt) refl)

-- The first bytes of a frame: the mark, the length of the group, and a part of the group.
take-frame :
    (crc32 : Text → ℕ) (e : Entry) (k : ℕ) (rest : List ℕ)
    → k ≤ length e.0.0
    → take (suc (suc (suc k))) (frame crc32 e) ++ rest
      ≡ 207 ∷ be_bytes 2 (length e.0.0 % 2 ^ 16) ++ (take k e.0.0 ++ rest)
unfolding frame be_bytes
take-frame crc32 ((group_id, topic, partition), entry) k rest le =
    ap
      (λ l. 207 ∷ length group_id % 65536 / 256 % 256 ∷ length group_id % 65536 % 256 ∷ (l ++ rest))
      (take-prefix k group_id _ le)

-- Behind a frame that was cut within its group, fewer bytes than the group lacks cannot be read.
cut_hides :
    (is_utf8 : Text → Bool) (crc32 : Text → ℕ) (e : Entry) (k : ℕ) (later : List ℕ)
    → IsEntry is_utf8 e
    → k + length later < length e.0.0
    → read_frame is_utf8 crc32 (take (suc (suc (suc k))) (frame crc32 e) ++ later) ≡ short
unfolding read_frame
cut_hides is_utf8 crc32 e k later good lt =
    let size : length (take k e.0.0) ≤ k = length-take k e.0.0 in
    rw (take-frame crc32 e k later (omega arith)) (
      rw
        (read_text-cut is_utf8 (length e.0.0) (take k e.0.0 ++ later) good.0.1
          (omega (arith, length-append (take k e.0.0) later)))
        refl)

-- A write that fails leaves the part of the frame in the file.
failed_write :
    (crc32 : Text → ℕ) (c : Commit) (m : ConsumerGroupManager)
    → c.written < length (frame crc32 (c.key, value c))
    → commit crc32 c m ≡ (
      false,
      record m {
        offsets = insert c.key (value c) m.offsets;
        log_file = m.log_file ++ take c.written (frame crc32 (c.key, value c));
      },
    )
unfolding commit commit_offset_with_metadata
failed_write crc32 c m lt = rw (lt→ltb c.written (length (frame crc32 (c.key, value c))) lt) refl

-- A commit that returns success and does not compact leaves its frame at the end of the file.
acked_log :
    (crc32 : Text → ℕ) (c : Commit) (m : ConsumerGroupManager)
    → (commit crc32 c m).0 ≡ true
    → length (m.log_file ++ frame crc32 (c.key, value c)) ≤ 1024 * 1024
    → (commit crc32 c m).1.log_file ≡ m.log_file ++ frame crc32 (c.key, value c)
unfolding commit commit_offset_with_metadata
acked_log crc32 c m ok fits =
    let bytes = frame crc32 (c.key, value c) in
    elim (Bool-cases (ltb c.written (length bytes) || not c.synced)) [
      | inl e ↦ absurd (ground arith)
      | inr e ↦
          let enough : length bytes ≤ c.written = ground arith in
          rw (e, take_enough c.written bytes enough)
            (elim (Bool-cases (ltb (1024 * 1024) (length (m.log_file ++ bytes)))) [
              | inl big ↦
                  absurd (omega (arith, ltb→lt (1024 * 1024) (length (m.log_file ++ bytes)) big))
              | inr small ↦ rw small refl
            ])
    ]

frame_longer : (crc32 : Text → ℕ) (e : Entry) → 3 + length e.0.0 ≤ length (frame crc32 e)
unfolding frame
frame_longer crc32 ((group_id, topic, partition), entry) = omega (
  arith,
  length-append (text_bytes group_id) (
      text_bytes topic
      ++ ((be_bytes 4 partition ++ be_bytes 8 entry.offset)
          ++ (text_bytes entry.metadata
              ++ be_bytes 4 (compute_crc crc32 ((group_id, topic, partition), entry))))),
  length-append (be_bytes 2 (length group_id % 2 ^ 16)) group_id,
  length-be_bytes 2 (length group_id % 2 ^ 16),
)

-- Where, after acknowledged commits on a new manager, the write of a commit fails within its group id,
-- and the next commit returns success without a compaction and has a frame shorter than what the
-- failed write left out of the group id, opening the log gives the manager as it was before both: the
-- commit that returned success is lost. The other conditions are those of survival.
pub failed_write_hides :
    (is_utf8 : Text → Bool) (crc32 : Text → ℕ) (cs : List Commit) (failed next : Commit) (k : ℕ)
    (chunks : List (List ℕ))
    → IsCrc crc32
    → All (λ c. IsEntry is_utf8 (c.key, value c)) cs
    → AllAcked crc32 cs empty
    → IsEntry is_utf8 (failed.key, value failed)
    → failed.written ≡ 3 + k
    → k + length (frame crc32 (next.key, value next)) < length failed.key.0
    → let m = commit_all crc32 cs empty in
      let m' = (commit crc32 failed m).1 in
      let r = commit crc32 next m' in
      r.0 ≡ true
      → length (m'.log_file ++ frame crc32 (next.key, value next)) ≤ 1024 * 1024
      → IsRead chunks
      → joined chunks ≡ r.1.log_file
      → open_log is_utf8 crc32 r.1.log_file chunks ≡ m
unfolding frames inserted
failed_write_hides is_utf8 crc32 cs failed next k chunks small good ok good' w lt =
    let m = commit_all crc32 cs empty in
    let m' = (commit crc32 failed m).1 in
    let e : Entry = (failed.key, value failed) in
    let later = frame crc32 (next.key, value next) in
    let tail = take (suc (suc (suc k))) (frame crc32 e) ++ later in
    let longer = frame_longer crc32 e in
    let left : m'.log_file ≡ m.log_file ++ take failed.written (frame crc32 e) =
      ap (λ r. r.1.log_file) (failed_write crc32 failed m (omega (arith, w, longer))) in
    let count : failed.written ≡ suc (suc (suc k)) = omega (arith, w) in
    let part : take failed.written (frame crc32 e) ≡ take (suc (suc (suc k))) (frame crc32 e) =
      ap (λ n. take n (frame crc32 e)) count in
    λ acked fits reads file.
      let log : (commit crc32 next m').1.log_file ≡ m.log_file ++ tail =
        acked_log crc32 next m' acked fits
        ∙ ap (λ l. l ++ later) (left ∙ ap (λ l. m.log_file ++ l) part)
        ∙ append_assoc m.log_file (take (suc (suc (suc k))) (frame crc32 e)) later in
      subst (λ l. open_log is_utf8 crc32 l chunks ≡ m) (sym log)
        (reopened_same is_utf8 crc32 m tail chunks small
          (cut_hides is_utf8 crc32 e k later good' lt) reads (file ∙ log)
          (commit_all-Logged is_utf8 crc32 cs empty good ok ([], tt, refl)))
