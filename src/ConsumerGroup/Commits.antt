-- ===== src/ConsumerGroup/Commits.antt =====
-- consumer_group.rs: sequences of commits and the log that they leave.
use mathlib.Core.List.{append_assoc, append-nil}
use bifrox.Prelude.{
  ℕ, zero, suc, ◌*◌, ◌≤◌, ◌≡◌, refl, sym, ap, subst, ◌∙◌, inl, inr, ◌⊎◌, Bool, true, not, ◌||◌,
  Option, none, some, List, [], ◌∷◌, ◌++◌, ltb, if◌then◌else◌, length, take, Bool-cases, All,
  All-append, arith,
}
use bifrox.Prelude.Text.{Text}
use bifrox.Prelude.Table.{insert}
use bifrox.ConsumerGroup.{
  Entry, Offsets, OffsetEntry, GroupKey, group_key, same_key, frame, frames, short, read_frame,
  Compaction, unopened, kept, removed, renamed, reopened, opened, ConsumerGroupManager, open_log,
  compact_log, commit_offset_with_metadata,
}
use bifrox.ConsumerGroup.RoundTrip.{IsEntry, IsCrc}
use bifrox.ConsumerGroup.Chunks.{joined, IsRead}
use bifrox.ConsumerGroup.Logged.{inserted, inserted-append, inserted-inserted, open_log-frames}

-- A commit, and what becomes of its input and output.
pub record Commit : Type 0 where
  pub key : GroupKey
  pub offset : ℕ
  pub metadata : Text
  pub written : ℕ
  pub synced : Bool
  pub compaction : Compaction

abbrev pub value : Commit → OffsetEntry
value c = record { offset = c.offset; metadata = c.metadata }

unfoldable pub commit : (Text → ℕ) → Commit → ConsumerGroupManager → Bool × ConsumerGroupManager
commit crc32 c m =
    commit_offset_with_metadata crc32 c.written c.synced c.compaction c.key c.offset c.metadata m

unfoldable pub commit_all : (Text → ℕ) → List Commit → ConsumerGroupManager → ConsumerGroupManager
commit_all crc32 [] m = m
commit_all crc32 (c ∷ cs) m = commit_all crc32 cs (commit crc32 c m).1

-- Each of the commits returns success.
abbrev pub AllAcked : (Text → ℕ) → List Commit → ConsumerGroupManager → Type 0
AllAcked crc32 [] m = Unit
AllAcked crc32 (c ∷ cs) m = ((commit crc32 c m).0 ≡ true) × AllAcked crc32 cs (commit crc32 c m).1

-- What was committed last for a key.
unfoldable pub last_commit : GroupKey → List Commit → Option OffsetEntry → Option OffsetEntry
last_commit key [] o = o
last_commit key (c ∷ cs) o = last_commit key cs (if same_key c.key key then some (value c) else o)

abbrev pub empty : ConsumerGroupManager
empty = record { offsets = []; log_file = []; log_path = opened; tmp_file = none }

pub take_enough : (n : ℕ) (xs : List ℕ) → length xs ≤ n → take n xs ≡ xs
take_enough zero [] h = refl
take_enough zero (x ∷ xs) h = absurd (omega arith)
take_enough (suc n) [] h = refl
take_enough (suc n) (x ∷ xs) h = ap (λ l. x ∷ l) (take_enough n xs (omega arith))

module _ (is_utf8 : Text → Bool) (crc32 : Text → ℕ) where
  -- The log holds frames whose entries, inserted in turn, are the map.
  abbrev pub Logged : ConsumerGroupManager → Type 0
  Logged m =
      (es : List Entry) × All (IsEntry is_utf8) es
      × (m ≡ record {
        offsets = inserted es [];
        log_file = frames crc32 es;
        log_path = opened;
        tmp_file = none;
      })

  frames-append :
      (es ds : List Entry) → frames crc32 (es ++ ds) ≡ frames crc32 es ++ frames crc32 ds
  unfolding frames
  frames-append [] ds = refl
  frames-append (e ∷ es) ds =
      ap (λ l. frame crc32 e ++ l) (frames-append es ds)
      ∙ sym (append_assoc (frame crc32 e) (frames crc32 es) (frames crc32 ds))

  All-insert :
      (key : GroupKey) (v : OffsetEntry) (m : Offsets)
      → IsEntry is_utf8 (key, v)
      → All (IsEntry is_utf8) m
      → All (IsEntry is_utf8) (insert key v m)
  unfolding insert
  All-insert key v [] good h = (good, tt)
  All-insert key v ((k, w) ∷ m) good (h, hs) = elim (Bool-cases (same_key k key)) [
    | inl c ↦ rw c (good, hs)
    | inr c ↦ rw c (h, All-insert key v m good hs)
  ]

  pub All-inserted :
      (es : List Entry) (m : Offsets)
      → All (IsEntry is_utf8) es
      → All (IsEntry is_utf8) m
      → All (IsEntry is_utf8) (inserted es m)
  unfolding inserted
  All-inserted [] m h k = k
  All-inserted (e ∷ es) m (h, hs) k =
      All-inserted es (insert e.0 e.1 m) hs (All-insert e.0 e.1 m h k)

  -- The manager after an append that reaches the file as a whole.
  appended : List Entry → Entry → ConsumerGroupManager
  appended es e = record {
    offsets = insert e.0 e.1 (inserted es []);
    log_file = frames crc32 es ++ frame crc32 e;
    log_path = opened;
    tmp_file = none;
  }

  appended-Logged :
      (es : List Entry) (e : Entry)
      → All (IsEntry is_utf8) es
      → IsEntry is_utf8 e
      → Logged (appended es e)
  unfolding appended frames inserted
  appended-Logged es e goods good =
      let more =
        frames-append es (e ∷ []) ∙ ap (λ l. frames crc32 es ++ l) (append-nil (frame crc32 e)) in
      (
        es ++ (e ∷ []),
        All-append (IsEntry is_utf8) es (e ∷ []) goods (good, tt),
        rw (more, inserted-append es (e ∷ []) []) refl,
      )

  compacted-Logged :
      (es : List Entry) (e : Entry) (c : Compaction)
      → All (IsEntry is_utf8) es
      → IsEntry is_utf8 e
      → (compact_log crc32 c (appended es e)).0 ≡ true
      → Logged (compact_log crc32 c (appended es e)).1
  unfolding compact_log appended inserted
  compacted-Logged es e unopened goods good ok = cc ok
  compacted-Logged es e (kept n) goods good ok = cc ok
  compacted-Logged es e removed goods good ok = cc ok
  compacted-Logged es e renamed goods good ok = cc ok
  compacted-Logged es e reopened goods good ok =
      let all = es ++ (e ∷ []) in
      let same : inserted all [] ≡ insert e.0 e.1 (inserted es []) =
        inserted-append es (e ∷ []) [] in
      (
        inserted all [],
        All-inserted all [] (All-append (IsEntry is_utf8) es (e ∷ []) goods (good, tt)) tt,
        rw (inserted-inserted all, same) refl,
      )

  -- The manager that an acknowledged commit leaves is the one after a whole append, or after its
  -- compaction.
  acked :
      (c : Commit) (es : List Entry)
      → (commit crc32 c (record {
        offsets = inserted es [];
        log_file = frames crc32 es;
        log_path = opened;
        tmp_file = none;
      })).0
        ≡ true
      → let r = commit crc32 c (record {
        offsets = inserted es [];
        log_file = frames crc32 es;
        log_path = opened;
        tmp_file = none;
      }) in
        let whole = appended es (c.key, value c) in
        (r ≡ (true, whole)) ⊎ (r ≡ compact_log crc32 c.compaction whole)
  unfolding commit commit_offset_with_metadata appended
  acked c es ok =
      let bytes = frame crc32 (c.key, value c) in
      elim (Bool-cases (ltb c.written (length bytes) || not c.synced)) [
        | inl e ↦ absurd (ground arith)
        | inr e ↦
            let enough : length bytes ≤ c.written = ground arith in
            let log = frames crc32 es ++ bytes in
            rw (e, take_enough c.written bytes enough)
              (elim (Bool-cases (ltb (1024 * 1024) (length log))) [
                | inl big ↦ rw big (inr refl)
                | inr fits ↦ rw fits (inl refl)
              ])
      ]

  commit-Logged :
      (c : Commit) (m : ConsumerGroupManager)
      → IsEntry is_utf8 (c.key, value c)
      → Logged m
      → (commit crc32 c m).0 ≡ true
      → Logged (commit crc32 c m).1
  commit-Logged c m good (es, goods, same) ok =
      let s : ConsumerGroupManager = record {
        offsets = inserted es [];
        log_file = frames crc32 es;
        log_path = opened;
        tmp_file = none;
      } in
      let ok' : (commit crc32 c s).0 ≡ true = subst (λ x. (commit crc32 c x).0 ≡ true) same ok in
      let whole = appended es (c.key, value c) in
      subst (λ x. Logged (commit crc32 c x).1) (sym same)
        (elim (acked c es ok') [
          | inl e ↦ subst (λ r. Logged r.1) (sym e) (appended-Logged es (c.key, value c) goods good)
          | inr e ↦
              subst (λ r. Logged r.1) (sym e)
                (compacted-Logged es (c.key, value c) c.compaction goods good
                  (sym (ap (λ r. r.0) e) ∙ ok'))
        ])

  pub commit_all-Logged :
      (cs : List Commit) (m : ConsumerGroupManager)
      → All (λ c. IsEntry is_utf8 (c.key, value c)) cs
      → AllAcked crc32 cs m
      → Logged m
      → Logged (commit_all crc32 cs m)
  unfolding commit_all
  commit_all-Logged [] m good ok h = h
  commit_all-Logged (c ∷ cs) m (good, goods) (ok, oks) h =
      commit_all-Logged cs (commit crc32 c m).1 goods oks (commit-Logged c m good h ok)

  pub reopened_same :
      (m : ConsumerGroupManager) (tail : List ℕ) (chunks : List (List ℕ))
      → IsCrc crc32
      → read_frame is_utf8 crc32 tail ≡ short
      → IsRead chunks
      → joined chunks ≡ m.log_file ++ tail
      → Logged m
      → open_log is_utf8 crc32 (m.log_file ++ tail) chunks ≡ m
  reopened_same m tail chunks small ends reads e (es, goods, same) =
      let file : m.log_file ≡ frames crc32 es = ap (λ x. x.log_file) same in
      subst (λ l. open_log is_utf8 crc32 (l ++ tail) chunks ≡ m) (sym file)
        (open_log-frames is_utf8 crc32 small es tail chunks goods ends reads
            (e ∙ ap (λ l. l ++ tail) file)
          ∙ sym same)
