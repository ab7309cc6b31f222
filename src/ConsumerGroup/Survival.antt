-- ===== src/ConsumerGroup/Survival.antt =====
-- consumer_group.rs: a restart after commits.
use bifrox.Prelude.{
  ℕ, ◌*◌, ◌<◌, ◌≡◌, refl, ap, ◌∙◌, inl, inr, Bool, not, ◌||◌, none, List, [], ◌∷◌, ◌++◌, ltb,
  length, take, Bool-cases, All,
}
use bifrox.Prelude.Text.{Text}
use bifrox.Prelude.Table.{get, insert, get-insert}
use bifrox.ConsumerGroup.{
  Entry, GroupKey, group_key, frame, frames, Compaction, unopened, kept, removed, renamed, reopened,
  ConsumerGroupManager, open_log, compact_log, commit_offset_with_metadata,
  fetch_offset_with_metadata,
}
use bifrox.ConsumerGroup.RoundTrip.{IsEntry, IsCrc, read_frame-torn}
use bifrox.ConsumerGroup.Chunks.{joined, IsRead}
use bifrox.ConsumerGroup.Logged.{inserted}
use bifrox.ConsumerGroup.Commits.{
  Commit, value, commit, commit_all, AllAcked, last_commit, empty, commit_all-Logged, reopened_same,
}

compact_log-offsets :
    (crc32 : Text → ℕ) (c : Compaction) (m : ConsumerGroupManager)
    → (compact_log crc32 c m).1.offsets ≡ m.offsets
unfolding compact_log
compact_log-offsets crc32 unopened m = refl
compact_log-offsets crc32 (kept n) m = refl
compact_log-offsets crc32 removed m = refl
compact_log-offsets crc32 renamed m = refl
compact_log-offsets crc32 reopened m = refl

commit-offsets :
    (crc32 : Text → ℕ) (c : Commit) (m : ConsumerGroupManager)
    → (commit crc32 c m).1.offsets ≡ insert c.key (value c) m.offsets
unfolding commit commit_offset_with_metadata
commit-offsets crc32 c m =
    let bytes = frame crc32 (c.key, value c) in
    let log = m.log_file ++ take c.written bytes in
    elim (Bool-cases (ltb c.written (length bytes) || not c.synced)) [
      | inl e ↦ rw e refl
      | inr e ↦ rw e (elim (Bool-cases (ltb (1024 * 1024) (length log))) [
        | inl big ↦ rw big (compact_log-offsets crc32 c.compaction _)
        | inr fits ↦ rw fits refl
      ])
    ]

commit_all-get :
    (crc32 : Text → ℕ) (key : GroupKey) (cs : List Commit) (m : ConsumerGroupManager)
    → get key (commit_all crc32 cs m).offsets ≡ last_commit key cs (get key m.offsets)
unfolding commit_all last_commit
commit_all-get crc32 key [] m = refl
commit_all-get crc32 key (c ∷ cs) m =
    commit_all-get crc32 key cs (commit crc32 c m).1
    ∙ ap (last_commit key cs)
        (ap (get key) (commit-offsets crc32 c m) ∙ get-insert c.key key (value c) m.offsets)

-- After any commits on a new manager that all return success, with or without compactions, and a
-- further frame that reached the file in part only, opening the log gives the manager as it was, and
-- each key has the entry that was committed last for it. The fields are in the range of their types,
-- the strings are UTF-8 of at most 65535 bytes, a checksum has 32 bits, and the file is read in any
-- pieces.
pub acked_commits_survive :
    (is_utf8 : Text → Bool) (crc32 : Text → ℕ) (cs : List Commit) (torn : Entry) (n : ℕ)
    (chunks : List (List ℕ))
    → IsCrc crc32
    → All (λ c. IsEntry is_utf8 (c.key, value c)) cs
    → AllAcked crc32 cs empty
    → IsEntry is_utf8 torn
    → n < length (frame crc32 torn)
    → IsRead chunks
    → joined chunks ≡ (commit_all crc32 cs empty).log_file ++ take n (frame crc32 torn)
    → let m = commit_all crc32 cs empty in
      let m' = open_log is_utf8 crc32 (m.log_file ++ take n (frame crc32 torn)) chunks in
      (m' ≡ m) × ((key : GroupKey) → fetch_offset_with_metadata key m' ≡ last_commit key cs none)
unfolding fetch_offset_with_metadata get inserted frames
acked_commits_survive is_utf8 crc32 cs torn n chunks small good ok good' lt reads e =
    let m = commit_all crc32 cs empty in
    let same =
      reopened_same is_utf8 crc32 m (take n (frame crc32 torn)) chunks small
        (read_frame-torn is_utf8 crc32 torn n small good' lt) reads e
        (commit_all-Logged is_utf8 crc32 cs empty good ok ([], tt, refl)) in
    (same, (λ key. ap (λ x. get key x.offsets) same ∙ commit_all-get crc32 key cs empty))
