-- ===== src/ConsumerGroup/Interrupted.antt =====
-- consumer_group.rs: a restart after a compaction that came to a stop.
use mathlib.Core.List.{append-nil}
use bifrox.Prelude.{
  ℕ, ◌≡◌, refl, sym, ap, subst, ◌∙◌, Bool, none, some, List, [], ◌∷◌, length, All, arith,
}
use bifrox.Prelude.Text.{Text}
use bifrox.ConsumerGroup.{
  Entry, Offsets, frames, read_frame, ConsumerGroupManager, opened, Compaction, unopened, kept,
  removed, renamed, reopened, read_chunks, open_log, on_disk, compact_log,
}
use bifrox.ConsumerGroup.RoundTrip.{IsEntry, IsCrc}
use bifrox.ConsumerGroup.Chunks.{joined, IsRead}
use bifrox.ConsumerGroup.Logged.{inserted, inserted-inserted, open_log-frames}
use bifrox.ConsumerGroup.Commits.{
  Commit, value, commit_all, AllAcked, empty, All-inserted, commit_all-Logged,
}

-- What a restart finds where the compaction of `m` came so far and left `m'`.
abbrev pub Finds :
    (Text → ℕ) → Compaction → ConsumerGroupManager → ConsumerGroupManager → Offsets → Type 0
Finds crc32 removed m m' found =
    (found ≡ []) × (m'.offsets ≡ m.offsets) × (m'.tmp_file ≡ some (frames crc32 m.offsets))
Finds crc32 _ m m' found = (found ≡ m.offsets) × (m'.offsets ≡ m.offsets)

module _ (is_utf8 : Text → Bool) (crc32 : Text → ℕ) where
  nothing_found :
      (chunks : List (List ℕ))
      → IsRead chunks
      → joined chunks ≡ []
      → (open_log is_utf8 crc32 [] chunks).offsets ≡ []
  unfolding open_log read_chunks
  nothing_found [] reads e = refl
  nothing_found ([] ∷ chunks) (pos, reads) e = absurd (omega arith)
  nothing_found ((b ∷ chunk) ∷ chunks) reads e = absurd (let n = ap length e in omega (arith, n))

  found_frames :
      (es : List Entry) (chunks : List (List ℕ))
      → IsCrc crc32
      → All (IsEntry is_utf8) es
      → IsRead chunks
      → joined chunks ≡ frames crc32 es
      → (open_log is_utf8 crc32 (frames crc32 es) chunks).offsets ≡ inserted es []
  unfolding read_frame
  found_frames es chunks small good reads e =
      let whole = append-nil (frames crc32 es) in
      subst (λ l. (open_log is_utf8 crc32 l chunks).offsets ≡ inserted es []) whole
        (ap (λ m. m.offsets)
          (open_log-frames is_utf8 crc32 small es [] chunks good refl reads (e ∙ sym whole)))

  compacted :
      (es : List Entry) (chunks : List (List ℕ))
      → IsCrc crc32
      → All (IsEntry is_utf8) es
      → IsRead chunks
      → joined chunks ≡ frames crc32 (inserted es [])
      → (open_log is_utf8 crc32 (frames crc32 (inserted es [])) chunks).offsets ≡ inserted es []
  unfolding inserted
  compacted es chunks small good reads e =
      found_frames (inserted es []) chunks small (All-inserted is_utf8 crc32 es [] good tt) reads e
      ∙ inserted-inserted es

  stopped :
      (c : Compaction) (es : List Entry) (chunks : List (List ℕ))
      → IsCrc crc32
      → All (IsEntry is_utf8) es
      → IsRead chunks
      → let m : ConsumerGroupManager = record {
        offsets = inserted es [];
        log_file = frames crc32 es;
        log_path = opened;
        tmp_file = none;
      } in
        let m' = (compact_log crc32 c m).1 in
        joined chunks ≡ on_disk m'
        → Finds crc32 c m m' (open_log is_utf8 crc32 (on_disk m') chunks).offsets
  unfolding compact_log
  stopped unopened es chunks small good reads e = (found_frames es chunks small good reads e, refl)
  stopped (kept n) es chunks small good reads e = (found_frames es chunks small good reads e, refl)
  stopped removed es chunks small good reads e = (nothing_found chunks reads e, refl, refl)
  stopped renamed es chunks small good reads e = (compacted es chunks small good reads e, refl)
  stopped reopened es chunks small good reads e = (compacted es chunks small good reads e, refl)

-- A compaction after acknowledged commits on a new manager leaves the map as it is, wherever it
-- stops, and a restart that then opens what stands at the path of the log, in any pieces, finds
-- the same map; but where it stopped between removing the old file and renaming the new one, the
-- restart finds an empty map, while the temporary file holds the frames of all entries. The
-- other conditions are those of survival.
pub interrupted_compaction :
    (is_utf8 : Text → Bool) (crc32 : Text → ℕ) (cs : List Commit) (c : Compaction)
    (chunks : List (List ℕ))
    → IsCrc crc32
    → All (λ c. IsEntry is_utf8 (c.key, value c)) cs
    → AllAcked crc32 cs empty
    → IsRead chunks
    → joined chunks ≡ on_disk (compact_log crc32 c (commit_all crc32 cs empty)).1
    → let m = commit_all crc32 cs empty in
      let m' = (compact_log crc32 c m).1 in
      Finds crc32 c m m' (open_log is_utf8 crc32 (on_disk m') chunks).offsets
unfolding frames inserted
interrupted_compaction is_utf8 crc32 cs c chunks small good ok reads e =
    let (es, goods, same) = commit_all-Logged is_utf8 crc32 cs empty good ok ([], tt, refl) in
    subst
      (λ m.
        joined chunks ≡ on_disk (compact_log crc32 c m).1
        → Finds crc32 c m (compact_log crc32 c m).1
            (open_log is_utf8 crc32 (on_disk (compact_log crc32 c m).1) chunks).offsets)
      (sym same) (stopped is_utf8 crc32 c es chunks small goods reads) e
