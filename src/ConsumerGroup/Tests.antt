-- ===== src/ConsumerGroup/Tests.antt =====
-- A log of two groups, with a checksum that counts bytes.
use bifrox.Prelude.{
  ℕ, ◌*◌, ◌%◌, ◌^◌, ◌≤◌, ◌≡◌, refl, Bool, true, false, none, some, List, [], ◌∷◌, ◌++◌, length,
  take, drop, All, arith,
}
use bifrox.Prelude.Text.{Text, same_text}
use bifrox.Prelude.Table.{insert}
use bifrox.Prelude.Bytes.{be_bytes}
use bifrox.ConsumerGroup.{
  GroupKey, frame, frames, reopened, removed, renamed, ConsumerGroupManager, open_log, on_disk,
  compact_log, commit_offset_with_metadata, fetch_offset_with_metadata,
}
use bifrox.ConsumerGroup.RoundTrip.{IsEntry, IsCrc}
use bifrox.ConsumerGroup.Chunks.{joined, IsRead, open_log_chunks}
use bifrox.ConsumerGroup.Commits.{Commit, value, commit, commit_all, AllAcked, last_commit, empty}
use bifrox.ConsumerGroup.Survival.{acked_commits_survive}
use bifrox.ConsumerGroup.Losses.{failed_write_hides}
use bifrox.ConsumerGroup.Interrupted.{Finds, interrupted_compaction}

abbrev any_text : Text → Bool
any_text s = true

abbrev count : Text → ℕ
count bytes = length bytes % 2 ^ 32

count-IsCrc : IsCrc count
count-IsCrc bytes = omega arith

abbrev key : GroupKey
key = (103 ∷ [], 116 ∷ [], 2)

abbrev at : ℕ → Commit
at offset = record {
  key = key;
  offset = offset;
  metadata = [];
  written = 25;
  synced = true;
  compaction = reopened;
}

at-IsEntry : IsEntry any_text (key, value (at 7))
at-IsEntry =
    ((refl, omega arith), (refl, omega arith), omega arith, omega arith, (refl, omega arith))

abbrev two : List Commit
two = at 5 ∷ at 7 ∷ []

two-IsEntry : All (λ c. IsEntry any_text (c.key, value c)) two
two-IsEntry = (
  ((refl, omega arith), (refl, omega arith), omega arith, omega arith, (refl, omega arith)),
  (at-IsEntry, tt),
)

two-acked : AllAcked count two empty
unfolding commit commit_offset_with_metadata frame be_bytes
two-acked = (refl, (refl, tt))

last_two : last_commit key two none ≡ some (value (at 7))
unfolding last_commit same_text
last_two = refl

abbrev torn_file : List ℕ
torn_file = (commit_all count two empty).log_file ++ take 9 (frame count (key, value (at 7)))

abbrev halves : List (List ℕ)
halves = take 20 torn_file ∷ drop 20 torn_file ∷ []

halves-IsRead : IsRead halves
unfolding commit_all commit commit_offset_with_metadata frame be_bytes
halves-IsRead = omega arith

halves-joined : joined halves ≡ torn_file
unfolding commit_all commit commit_offset_with_metadata frame be_bytes
halves-joined = refl

acked_commits_survive_example :
    let m = commit_all count two empty in
    let m' = open_log any_text count torn_file halves in
    (m' ≡ m) × ((key : GroupKey) → fetch_offset_with_metadata key m' ≡ last_commit key two none)
unfolding frame be_bytes
acked_commits_survive_example =
    acked_commits_survive any_text count two (key, value (at 7)) 9 halves count-IsCrc two-IsEntry
      two-acked at-IsEntry (omega arith) halves-IsRead halves-joined

abbrev wholly : List (List ℕ)
wholly = torn_file ∷ []

wholly-IsRead : IsRead wholly
unfolding commit_all commit commit_offset_with_metadata frame be_bytes
wholly-IsRead = omega arith

wholly-joined : joined wholly ≡ torn_file
unfolding commit_all commit commit_offset_with_metadata frame be_bytes
wholly-joined = refl

open_log_chunks_example :
    open_log any_text count torn_file halves ≡ open_log any_text count torn_file wholly
open_log_chunks_example =
    open_log_chunks any_text count torn_file halves wholly halves-IsRead wholly-IsRead halves-joined
      wholly-joined

abbrev long_group : Text
long_group =
    97 ∷ 97 ∷ 97 ∷ 97 ∷ 97 ∷ 97 ∷ 97 ∷ 97 ∷ 97 ∷ 97 ∷ 97 ∷ 97 ∷ 97 ∷ 97 ∷ 97 ∷ 97 ∷ 97 ∷ 97 ∷ 97
    ∷ 97 ∷ 97 ∷ 97 ∷ 97 ∷ 97 ∷ 97 ∷ 97 ∷ 97 ∷ 97 ∷ 97 ∷ 97 ∷ []

abbrev cut_commit : Commit
cut_commit = record {
  key = (long_group, 116 ∷ [], 2);
  offset = 9;
  metadata = [];
  written = 3;
  synced = false;
  compaction = reopened;
}

cut-IsEntry : IsEntry any_text (cut_commit.key, value cut_commit)
cut-IsEntry =
    ((refl, omega arith), (refl, omega arith), omega arith, omega arith, (refl, omega arith))

abbrev hidden : Bool × ConsumerGroupManager
hidden = commit count (at 11) (commit count cut_commit (commit_all count two empty)).1

hidden_acked : hidden.0 ≡ true
unfolding commit_all commit commit_offset_with_metadata frame be_bytes
hidden_acked = refl

hidden_short :
    length (
      (commit count cut_commit (commit_all count two empty)).1.log_file
      ++ frame count (key, value (at 11)))
    ≤ 1024 * 1024
unfolding commit_all commit commit_offset_with_metadata frame be_bytes
hidden_short = omega arith

hidden-IsRead : IsRead (hidden.1.log_file ∷ [])
unfolding commit_all commit commit_offset_with_metadata frame be_bytes
hidden-IsRead = omega arith

hidden-joined : joined (hidden.1.log_file ∷ []) ≡ hidden.1.log_file
unfolding commit_all commit commit_offset_with_metadata frame be_bytes
hidden-joined = refl

failed_write_hides_example :
    open_log any_text count hidden.1.log_file (hidden.1.log_file ∷ []) ≡ commit_all count two empty
unfolding frame be_bytes
failed_write_hides_example =
    failed_write_hides any_text count two cut_commit (at 11) 0 (hidden.1.log_file ∷ []) count-IsCrc
      two-IsEntry two-acked cut-IsEntry refl (omega arith) hidden_acked hidden_short hidden-IsRead
      hidden-joined

abbrev compacted : ConsumerGroupManager
compacted = (compact_log count renamed (commit_all count two empty)).1

compacted-IsRead : IsRead (on_disk compacted ∷ [])
unfolding compact_log frames commit_all commit commit_offset_with_metadata frame be_bytes insert
    same_text
compacted-IsRead = omega arith

compacted-joined : joined (on_disk compacted ∷ []) ≡ on_disk compacted
unfolding compact_log frames commit_all commit commit_offset_with_metadata frame be_bytes insert
    same_text
compacted-joined = refl

interrupted_compaction_example :
    Finds count renamed
      (commit_all count two empty)
      compacted
      (open_log any_text count (on_disk compacted) (on_disk compacted ∷ [])).offsets
unfolding frame be_bytes
interrupted_compaction_example =
    interrupted_compaction any_text count two renamed (on_disk compacted ∷ []) count-IsCrc
      two-IsEntry two-acked compacted-IsRead compacted-joined

-- The temporary file of the compaction that stopped before the renaming has the offset.
removed_two :
    let m' = (compact_log count removed (commit_all count two empty)).1 in
    (on_disk m' ≡ []) × (m'.tmp_file ≡ some (frame count (key, value (at 7))))
unfolding compact_log frames commit_all commit commit_offset_with_metadata frame be_bytes insert
    same_text
removed_two = (refl, refl)
