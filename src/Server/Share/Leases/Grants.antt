-- ===== src/Server/Share/Leases/Grants.antt =====
-- server/share/partition.rs: leases and their timers, in `acquire_records`.
use mathlib.Core.List.{append-nil}
use bifrox.Prelude.{
  ℕ, ◌+◌, ◌-◌, ◌≡◌, refl, sym, inl, inr, ◌⊎◌, Bool, false, not, ◌||◌, some, List, [], ◌∷◌, ◌++◌,
  ltb, leb, ◌==◌, length, All, Occurs, Occurs-append_left, Occurs-append_right, Bool-cases,
}
use bifrox.Prelude.Text.{Text}
use bifrox.Server.Share.Batches.{
  InFlightBatch, available, is_available, is_acquired, insert, keys_where, visit,
}
use bifrox.Server.Share.Batches.Tiling.{Tiled}
use bifrox.Server.Share.Batches.Passes.{scan-All, visit-scan}
use bifrox.Server.Share.Timers.{ExpiryTimer}
use bifrox.Server.Share.Partition.{let_go}
use bifrox.Server.Share.Partition.Acquire.{
  Fetch, Acquiring, last_of, fresh_lease, lease, take_lease, split_offset, batch_len, acquire_batch,
  take_fresh, valid_frames, acquire_fresh,
}
use bifrox.Server.Share.Partition.Order.{acquire_batch-Divides}
use bifrox.Server.Share.Leases.{Timed}

-- A lease that is being granted: the member holds it since now, and its range will get a timer.
abbrev pub Granted : Text → ℕ → ℕ → List (ℕ × ℕ) → InFlightBatch → Type 0
Granted member now timeout ranges b =
    (b.acquired_by ≡ some member)
    × (b.acquired_at ≡ some now)
    × (b.lock_timeout ≡ timeout)
    × Occurs (b.first_offset, b.last_offset) ranges

-- While records are acquired, a lease has its timer or is being granted.
abbrev pub Covered : Text → ℕ → ℕ → List ExpiryTimer → Acquiring → InFlightBatch → Type 0
Covered member now timeout ts a b = Timed ts b ⊎ Granted member now timeout a.new_acquired_ranges b

Covered_more :
    (member : Text) (now timeout : ℕ) (ts : List ExpiryTimer) (a a' : Acquiring)
    (more : List (ℕ × ℕ)) (b : InFlightBatch)
    → a'.new_acquired_ranges ≡ a.new_acquired_ranges ++ more
    → Covered member now timeout ts a b
    → Covered member now timeout ts a' b
Covered_more member now timeout ts a a' more b e (inl t) = inl t
Covered_more member now timeout ts a a' more b e (inr (by, since, same, m)) = inr (
  by,
  since,
  same,
  rw e (Occurs-append_left (b.first_offset, b.last_offset) a.new_acquired_ranges more m),
)

-- What a step adds to the ranges.
abbrev Extends : Acquiring → Acquiring → Type 0
Extends a a' = (more : List (ℕ × ℕ)) × (a'.new_acquired_ranges ≡ a.new_acquired_ranges ++ more)

granted :
    (member : Text) (now timeout : ℕ) (ts : List ExpiryTimer) (fetch : Fetch) (b : InFlightBatch)
    (others : List InFlightBatch) (a : Acquiring)
    → All (λ c. is_acquired c.state ≡ false) others
    → All
        (Covered member now timeout ts (take_lease fetch (lease member now timeout b) others a).1)
        (take_lease fetch (lease member now timeout b) others a).0
granted member now timeout ts fetch b others a idle = (
  inr (
    refl,
    refl,
    refl,
    Occurs-append_right (b.first_offset, b.last_offset) a.new_acquired_ranges _ (inl refl),
  ),
  idle_covered others idle,
)
  where
    idle_covered :
        (cs : List InFlightBatch)
        → All (λ c. is_acquired c.state ≡ false) cs
        → All
            (Covered member now timeout ts
              (take_lease fetch (lease member now timeout b) others a).1)
            cs
    idle_covered [] h = tt
    idle_covered (c ∷ cs) (h, hs) = (inl (λ l. cc (l, h)), idle_covered cs hs)

acquire_batch-Extends :
    (member : Text) (now timeout max_records : ℕ) (fetch : Fetch) (b : InFlightBatch)
    (a : Acquiring)
    → Extends a (acquire_batch member now timeout max_records fetch b a).1
unfolding acquire_batch
acquire_batch-Extends member now timeout max_records fetch b a =
    let needed = max_records - length a.acquired_infos in
    elim (Bool-cases (leb max_records (length a.acquired_infos) || not (is_available b.state))) [
      | inl e ↦ rw e ([], sym (append-nil a.new_acquired_ranges))
      | inr e ↦ rw e (elim (Bool-cases (leb (batch_len b) needed)) [
        | inl c ↦ rw c ((b.first_offset, b.last_offset) ∷ [], refl)
        | inr c ↦ rw c ((b.first_offset, split_offset b needed) ∷ [], refl)
      ])
    ]

acquire_batch_makes :
    (member : Text) (now timeout max_records : ℕ) (ts : List ExpiryTimer) (fetch : Fetch)
    (b : InFlightBatch) (a : Acquiring)
    → Covered member now timeout ts a b
    → let r = acquire_batch member now timeout max_records fetch b a in
      All (Covered member now timeout ts r.1) r.0
unfolding acquire_batch
acquire_batch_makes member now timeout max_records ts fetch b a q =
    elim (Bool-cases (leb max_records (length a.acquired_infos) || not (is_available b.state))) [
      | inl e ↦ rw e (q, tt)
      | inr e ↦
          rw e (elim (Bool-cases (leb (batch_len b) (max_records - length a.acquired_infos))) [
            | inl c ↦ rw c (granted member now timeout ts fetch b [] a tt)
            | inr c ↦ rw c (
                granted member now timeout ts fetch
                  (record b {
                    last_offset = split_offset b (max_records - length a.acquired_infos);
                  })
                  (let_go available (record b {
                    first_offset = split_offset b (max_records - length a.acquired_infos) + 1;
                  })
                    ∷ [])
                  a (refl, tt))
          ])
    ]

pub acquire_visit-All :
    (member : Text) (now timeout max_records lo hi : ℕ) (ts : List ExpiryTimer) (fetch : Fetch)
    (bs : List InFlightBatch) (a : Acquiring)
    → Tiled lo hi bs
    → All (Covered member now timeout ts a) bs
    → let v =
        visit
          (acquire_batch member now timeout max_records fetch)
          (keys_where (λ b. is_available b.state) bs)
          (bs, a) in
      All (Covered member now timeout ts v.1) v.0
acquire_visit-All member now timeout max_records lo hi ts fetch bs a tiled h =
    let f = acquire_batch member now timeout max_records fetch in
    let p : InFlightBatch → Bool = λ b. is_available b.state in
    let divides = acquire_batch-Divides member now timeout max_records fetch p in
    rw (visit-scan p f lo hi [] bs a divides tt tiled) (
      scan-All p f (λ a' c. Covered member now timeout ts a' c) lo hi [] bs a divides
        (λ b c a' e differ q.
          let (more, same) = acquire_batch-Extends member now timeout max_records fetch b a' in
          Covered_more member now timeout ts a' (f b a').1 more c same q)
        (λ b a' le e q. acquire_batch_makes member now timeout max_records ts fetch b a' q) tt tiled
        tt h)

pub All-insert :
    (P : InFlightBatch → Type 0) (b : InFlightBatch) (bs : List InFlightBatch)
    → P b
    → All P bs
    → All P (insert b bs)
unfolding insert
All-insert P b [] p h = (p, tt)
All-insert P b (c ∷ bs) p (h, hs) =
    let rest = All-insert P b bs p hs in
    elim (Bool-cases (ltb b.first_offset c.first_offset)) [
      | inl e ↦ rw e (p, (h, hs))
      | inr e ↦ elim (Bool-cases (b.first_offset == c.first_offset)) [
        | inl k ↦ rw (e, k) (p, hs)
        | inr k ↦ rw (e, k) (h, rest)
      ]
    ]

All_more :
    (member : Text) (now timeout : ℕ) (ts : List ExpiryTimer) (a a' : Acquiring)
    (more : List (ℕ × ℕ)) (bs : List InFlightBatch)
    → a'.new_acquired_ranges ≡ a.new_acquired_ranges ++ more
    → All (Covered member now timeout ts a) bs
    → All (Covered member now timeout ts a') bs
All_more member now timeout ts a a' more [] e h = tt
All_more member now timeout ts a a' more (b ∷ bs) e (h, hs) = (
  Covered_more member now timeout ts a a' more b e h,
  All_more member now timeout ts a a' more bs e hs,
)

take_fresh-All :
    (member : Text) (now timeout next : ℕ) (ts : List ExpiryTimer) (os : List ℕ)
    (bs : List InFlightBatch) (a : Acquiring)
    → All (Covered member now timeout ts a) bs
    → let r = take_fresh member now timeout os (next, bs, a) in
      All (Covered member now timeout ts r.2) r.1
take_fresh-All member now timeout next ts [] bs a h = h
take_fresh-All member now timeout next ts (o ∷ os) bs a h =
    let last = last_of o os in
    let a' = (take_fresh member now timeout (o ∷ os) (next, bs, a)).2 in
    All-insert (Covered member now timeout ts a') (fresh_lease member now timeout o last) bs
      (inr (refl, refl, refl, Occurs-append_right (o, last) a.new_acquired_ranges _ (inl refl)))
      (All_more member now timeout ts a a' ((o, last) ∷ []) bs refl h)

pub acquire_fresh-All :
    (member : Text) (now timeout max_records next : ℕ) (ts : List ExpiryTimer) (fetch : Fetch)
    (bs : List InFlightBatch) (a : Acquiring)
    → All (Covered member now timeout ts a) bs
    → let r = acquire_fresh member now timeout max_records fetch (next, bs, a) in
      All (Covered member now timeout ts r.2) r.1
unfolding acquire_fresh
acquire_fresh-All member now timeout max_records next ts fetch bs a h =
    let needed = max_records - length a.acquired_infos in
    elim (Bool-cases (ltb (length a.acquired_infos) max_records)) [
      | inl e ↦
          rw e (
            take_fresh-All member now timeout next ts (valid_frames next needed (fetch next)) bs a
              h)
      | inr e ↦ rw e h
    ]
