-- ===== src/ConsumerGroup/Logged.antt =====
-- consumer_group.rs: a log of whole frames and what may stand behind them.
use mathlib.Core.List.{append_assoc, append-nil}
use bifrox.Prelude.{
  ℕ, suc, ◌+◌, ◌-◌, ◌≤◌, ◌≡◌, refl, sym, ap, subst, ◌∙◌, inl, inr, Bool, false, none, List, [], ◌∷◌,
  ◌++◌, length, length-append, take-append, Bool-cases, All, All-append, arith,
}
use bifrox.Prelude.Text.{Text}
use bifrox.Prelude.Table.{insert}
use bifrox.ConsumerGroup.{
  opened, Entry, Offsets, OffsetEntry, GroupKey, group_key, same_key, same_key_iff, frame, frames,
  short, got, read_frame, Recovered, replay, start, open_log,
}
use bifrox.ConsumerGroup.RoundTrip.{IsEntry, IsCrc, read_frame-frame}
use bifrox.ConsumerGroup.Recovery.{append_buf, replay-suc, replay_fuel}
use bifrox.ConsumerGroup.Chunks.{joined, IsRead, read_chunks-joined}

-- Commits, one after the other.
unfoldable pub inserted : List Entry → Offsets → Offsets
inserted [] m = m
inserted (e ∷ es) m = inserted es (insert e.0 e.1 m)

pub inserted-append :
    (es ds : List Entry) (m : Offsets) → inserted (es ++ ds) m ≡ inserted ds (inserted es m)
unfolding inserted
inserted-append [] ds m = refl
inserted-append (e ∷ es) ds m = inserted-append es ds (insert e.0 e.1 m)

module _ (is_utf8 : Text → Bool) (crc32 : Text → ℕ) (small : IsCrc crc32) where
  replay-frames :
      (es : List Entry) (tail : List ℕ) (m : Offsets) (g n : ℕ) (c : Bool)
      → All (IsEntry is_utf8) es
      → read_frame is_utf8 crc32 tail ≡ short
      → length (frames crc32 es ++ tail) ≤ n
      → replay is_utf8 crc32 n
          (record { offsets = m; buf = frames crc32 es ++ tail; last_good_pos = g; is_corrupt = c })
        ≡ record {
          offsets = inserted es m;
          buf = tail;
          last_good_pos = g + length (frames crc32 es);
          is_corrupt = c;
        }
  unfolding frames inserted
  replay-frames [] tail m g n c good ends fits =
      let r : Recovered = record { offsets = m; buf = tail; last_good_pos = g; is_corrupt = c } in
      replay_fuel is_utf8 crc32 n (suc n) r fits (omega arith)
      ∙ replay-suc is_utf8 crc32 n r short ends
      ∙ ap (λ p. record { offsets = m; buf = tail; last_good_pos = p; is_corrupt = c })
          (omega arith)
  replay-frames (e ∷ es) tail m g n c (good, goods) ends fits =
      let rest = frames crc32 es ++ tail in
      let whole = append_assoc (frame crc32 e) (frames crc32 es) tail in
      let r : Recovered = record {
        offsets = m;
        buf = (frame crc32 e ++ frames crc32 es) ++ tail;
        last_good_pos = g;
        is_corrupt = c;
      } in
      let found : read_frame is_utf8 crc32 r.buf ≡ got e rest =
        rw whole (read_frame-frame is_utf8 crc32 e rest small good) in
      let size : length r.buf ≡ length (frame crc32 e) + length rest =
        ap length whole ∙ length-append (frame crc32 e) rest in
      let moved : g + (length r.buf - length rest) ≡ g + length (frame crc32 e) =
        omega (arith, size) in
      replay_fuel is_utf8 crc32 n (suc n) r fits (omega arith)
      ∙ replay-suc is_utf8 crc32 n r (got e rest) found
      ∙ replay-frames es tail (insert e.0 e.1 m) (g + (length r.buf - length rest)) n c goods ends
          (omega (arith, size, fits))
      ∙ ap
          (λ p. record {
            offsets = inserted es (insert e.0 e.1 m);
            buf = tail;
            last_good_pos = p;
            is_corrupt = c;
          })
          (omega (arith, moved, length-append (frame crc32 e) (frames crc32 es)))

  -- A log of frames with too few bytes for a frame behind them.
  pub open_log-frames :
      (es : List Entry) (tail : List ℕ) (chunks : List (List ℕ))
      → All (IsEntry is_utf8) es
      → read_frame is_utf8 crc32 tail ≡ short
      → IsRead chunks
      → joined chunks ≡ frames crc32 es ++ tail
      → open_log is_utf8 crc32 (frames crc32 es ++ tail) chunks ≡ record {
        offsets = inserted es [];
        log_file = frames crc32 es;
        log_path = opened;
        tmp_file = none;
      }
  unfolding open_log read_frame
  open_log-frames es tail chunks good ends reads e =
      let n = length (joined chunks) in
      let (o, g) = read_chunks-joined is_utf8 crc32 chunks start n reads refl refl (omega arith) in
      let fits : length (frames crc32 es ++ tail) ≤ n = omega (arith, ap length e) in
      let result =
        ap (λ bytes. replay is_utf8 crc32 n (append_buf start bytes)) e
        ∙ replay-frames es tail [] 0 n false good ends fits in
      rw (o ∙ ap (λ r. r.offsets) result, g ∙ ap (λ r. r.last_good_pos) result)
        (rw (take-append (frames crc32 es) tail (0 + length (frames crc32 es)) (omega arith)) refl)

-- No key is in the map twice.
abbrev pub Absent : GroupKey → Offsets → Type 0
Absent key m = All (λ e. same_key e.0 key ≡ false) m

abbrev pub Distinct : Offsets → Type 0
Distinct [] = Unit
Distinct (e ∷ m) = Absent e.0 m × Distinct m

Absent-insert :
    (key key' : GroupKey) (v : OffsetEntry) (m : Offsets)
    → same_key key' key ≡ false
    → Absent key m
    → Absent key (insert key' v m)
unfolding insert
Absent-insert key key' v [] e h = (e, tt)
Absent-insert key key' v ((k, w) ∷ m) e (h, hs) = elim (Bool-cases (same_key k key')) [
  | inl c ↦ rw c (e, hs)
  | inr c ↦ rw c (h, Absent-insert key key' v m e hs)
]

differs_back : (j k : GroupKey) → same_key j k ≡ false → same_key k j ≡ false
differs_back j k h = elim (Bool-cases (same_key k j)) [
  | inl c ↦ cc (h, (same_key_iff j k).1 (sym ((same_key_iff k j).0 c)))
  | inr c ↦ c
]

insert-Distinct :
    (key : GroupKey) (v : OffsetEntry) (m : Offsets) → Distinct m → Distinct (insert key v m)
unfolding insert
insert-Distinct key v [] h = (tt, tt)
insert-Distinct key v ((k, w) ∷ m) (h, hs) = elim (Bool-cases (same_key k key)) [
  | inl c ↦
      let same : k ≡ key = (same_key_iff k key).0 c in rw c (subst (λ x. Absent x m) same h, hs)
  | inr c ↦ rw c (Absent-insert k key v m (differs_back k key c) h, insert-Distinct key v m hs)
]

inserted-Distinct : (es : List Entry) (m : Offsets) → Distinct m → Distinct (inserted es m)
unfolding inserted
inserted-Distinct [] m h = h
inserted-Distinct (e ∷ es) m h =
    inserted-Distinct es (insert e.0 e.1 m) (insert-Distinct e.0 e.1 m h)

insert-Absent :
    (key : GroupKey) (v : OffsetEntry) (m : Offsets)
    → Absent key m
    → insert key v m ≡ m ++ ((key, v) ∷ [])
unfolding insert
insert-Absent key v [] h = refl
insert-Absent key v ((k, w) ∷ m) (h, hs) = rw h (ap (λ l. (k, w) ∷ l) (insert-Absent key v m hs))

-- Inserting the entries of a map behind others gives them all, in the same order.
inserted-entries :
    (done m : Offsets) → Distinct m → All (λ e. Absent e.0 done) m → inserted m done ≡ done ++ m
unfolding inserted
inserted-entries done [] h k = sym (append-nil done)
inserted-entries done ((key, v) ∷ m) (a, h) (k, ks) = rw (insert-Absent key v done k) (
    inserted-entries (done ++ ((key, v) ∷ [])) m h (more m a ks)
    ∙ append_assoc done ((key, v) ∷ []) m)
  where
    more :
        (m : Offsets)
        → Absent key m
        → All (λ e. Absent e.0 done) m
        → All (λ e. Absent e.0 (done ++ ((key, v) ∷ []))) m
    more [] a ks = tt
    more (e ∷ m) (a, rest) (k, ks) =
        (All-append _ done ((key, v) ∷ []) k (differs_back e.0 key a, tt), more m rest ks)

all-Absent : (m : Offsets) → All (λ e. Absent e.0 []) m
all-Absent [] = tt
all-Absent (e ∷ m) = (tt, all-Absent m)

-- Writing out the map and reading it back gives the same map.
pub inserted-inserted : (es : List Entry) → inserted (inserted es []) [] ≡ inserted es []
inserted-inserted es =
    inserted-entries [] (inserted es []) (inserted-Distinct es [] tt) (all-Absent (inserted es []))
