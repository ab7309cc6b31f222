-- ===== src/Server/Share/Partition/Fetched.antt =====
-- server/share/partition.rs: the order of the batches, in `acquire_records`.
use bifrox.Prelude.{
  ℕ, zero, suc, ◌+◌, ◌-◌, ◌%◌, ◌^◌, ◌≤◌, ◌<◌, ◌≡◌, refl, Bool, true, false, Option, none, some,
  List, [], ◌∷◌, ltb, leb, ◌==◌, if◌then◌else◌, length, take, retain, keep_if, All, All-retain,
  leb→le, inl, inr, Bool-cases, arith,
}
use bifrox.Prelude.Text.{Text}
use bifrox.Server.Share.Batches.{is_available, InFlightBatch, keys_where, visit}
use bifrox.Server.Share.Batches.Tiling.{Tiled, Tiled-append, insert-behind}
use bifrox.Server.Share.Batches.Passes.{visit-Tiled}
use bifrox.Server.Share.Partition.{SharePartition, sweep_timers_inline}
use bifrox.Server.Share.Partition.Acquire.{
  Fetch, Acquiring, fresh_lease, acquire_batch, last_of, take_fresh, valid_frames, acquire_fresh,
  or_default, acquire_after_sweep, acquire_records,
}
use bifrox.Server.Share.Partition.Order.{IsTiled, acquire_batch-Divides, sweep_inline-IsTiled}

-- The log gives records in order, and no record has the last of the 64-bit offsets.
abbrev pub Increasing : List ℕ → Type 0
Increasing [] = Unit
Increasing (o ∷ os) = All (λ o'. o < o') os × Increasing os

abbrev pub IsLog : Fetch → Type 0
IsLog fetch =
    (from : ℕ) (frames : List ℕ)
    → fetch from ≡ some frames
    → Increasing frames × All (λ o. o + 1 < 2 ^ 64) frames

All-take : (P : ℕ → Type 0) (n : ℕ) (os : List ℕ) → All P os → All P (take n os)
All-take P zero os h = tt
All-take P (suc n) [] h = tt
All-take P (suc n) (o ∷ os) (h, hs) = (h, All-take P n os hs)

Increasing-take : (n : ℕ) (os : List ℕ) → Increasing os → Increasing (take n os)
Increasing-take zero os h = tt
Increasing-take (suc n) [] h = tt
Increasing-take (suc n) (o ∷ os) (h, hs) = (All-take _ n os h, Increasing-take n os hs)

pub Increasing-retain : (p : ℕ → Bool) (os : List ℕ) → Increasing os → Increasing (retain p os)
Increasing-retain p [] h = tt
Increasing-retain p (o ∷ os) (h, hs) = go (p o) (Increasing-retain p os hs)
  where
    go : (b : Bool) → Increasing (retain p os) → Increasing (keep_if b o (retain p os))
    go true r = (All-retain _ p os h, r)
    go false r = r

All-retain_test : (p : ℕ → Bool) (os : List ℕ) → All (λ o. p o ≡ true) (retain p os)
All-retain_test p [] = tt
All-retain_test p (o ∷ os) = go (p o) refl (All-retain_test p os)
  where
    go :
        (b : Bool)
        → p o ≡ b
        → All (λ o'. p o' ≡ true) (retain p os)
        → All (λ o'. p o' ≡ true) (keep_if b o (retain p os))
    go true e r = (e, r)
    go false e r = r

-- The first and the last of fresh records.
last_of_bounds :
    (o : ℕ) (os : List ℕ)
    → Increasing (o ∷ os)
    → All (λ x. x + 1 < 2 ^ 64) (o ∷ os)
    → (o ≤ last_of o os) × (last_of o os + 1 < 2 ^ 64)
unfolding last_of
last_of_bounds o [] h k = (omega arith, k.0)
last_of_bounds o (o' ∷ os) ((h, hs), r) (k, ks) = omega (arith, last_of_bounds o' os r ks)

take_fresh-Tiled :
    (member : Text) (now timeout lo next : ℕ) (os : List ℕ) (bs : List InFlightBatch)
    (a : Acquiring)
    → Tiled lo next bs
    → next < 2 ^ 64
    → Increasing os
    → All (λ x. x + 1 < 2 ^ 64) os
    → All (λ x. leb next x ≡ true) os
    → let r = take_fresh member now timeout os (next, bs, a) in Tiled lo r.0 r.1 × (r.0 < 2 ^ 64)
take_fresh-Tiled member now timeout lo next [] bs a tiled small inc bound from = (tiled, small)
take_fresh-Tiled member now timeout lo next (o ∷ os) bs a tiled small inc bound (from, _) =
    let (le, fits) = last_of_bounds o os inc bound in
    let no_wrap : (last_of o os + 1) % 2 ^ 64 ≡ last_of o os + 1 = omega arith in
    let behind : next ≤ o = leb→le next o from in
    (
      rw
          (
            no_wrap,
            insert-behind (fresh_lease member now timeout o (last_of o os)) lo next bs tiled behind,
          )
          (Tiled-append lo next (last_of o os + 1) bs _ tiled (behind, le, omega arith)),
      rw no_wrap fits,
    )

acquire_fresh-Tiled :
    (member : Text) (now timeout max_records lo next : ℕ) (fetch : Fetch) (bs : List InFlightBatch)
    (a : Acquiring)
    → IsLog fetch
    → Tiled lo next bs
    → next < 2 ^ 64
    → let r = acquire_fresh member now timeout max_records fetch (next, bs, a) in
      Tiled lo r.0 r.1 × (r.0 < 2 ^ 64)
unfolding acquire_fresh
acquire_fresh-Tiled member now timeout max_records lo next fetch bs a log tiled small =
    go (ltb (length a.acquired_infos) max_records) (fetch next) refl
  where
    go :
        (b : Bool) (o : Option (List ℕ))
        → fetch next ≡ o
        → let r =
            if b
            then take_fresh member now timeout
                (valid_frames next (max_records - length a.acquired_infos) o)
                (next, bs, a)
            else (next, bs, a) in
          Tiled lo r.0 r.1 × (r.0 < 2 ^ 64)
    go false o e = (tiled, small)
    go true none e = (tiled, small)
    go true (some frames) e =
        let (inc, bound) = log next frames e in
        let needed = max_records - length a.acquired_infos in
        take_fresh-Tiled member now timeout lo next (take needed (retain (leb next) frames)) bs a
          tiled small
          (Increasing-take needed (retain (leb next) frames)
            (Increasing-retain (leb next) frames inc))
          (All-take _ needed (retain (leb next) frames) (All-retain _ (leb next) frames bound))
          (All-take _ needed (retain (leb next) frames) (All-retain_test (leb next) frames))

acquire_after_sweep-IsTiled :
    (member : Text) (max_records timeout : ℕ) (fetch : Fetch) (now : ℕ) (s : SharePartition)
    → IsLog fetch
    → IsTiled s
    → IsTiled (acquire_after_sweep member max_records timeout fetch now s).1
acquire_after_sweep-IsTiled member max_records timeout fetch now s log (h, small) =
    let f = acquire_batch member now timeout max_records fetch in
    let p : InFlightBatch → Bool = λ b. is_available b.state in
    let v =
      visit f (keys_where p s.batches)
        (s.batches, record { acquired_infos = []; new_acquired_ranges = [] }) in
    acquire_fresh-Tiled member now timeout max_records s.start_offset s.next_fetch_offset fetch v.0
      v.1 log
      (visit-Tiled p f s.start_offset s.next_fetch_offset s.batches _
        (acquire_batch-Divides member now timeout max_records fetch p) h)
      small

pub acquire-IsTiled :
    (member : Text) (max_records : ℕ) (timeout : Option ℕ) (fetch : Fetch) (now : ℕ)
    (s : SharePartition)
    → IsLog fetch
    → IsTiled s
    → IsTiled (acquire_records member max_records timeout fetch now s).1
unfolding acquire_records
acquire-IsTiled member max_records timeout fetch now s log h =
    elim (Bool-cases (max_records == 0)) [
      | inl e ↦ rw e h
      | inr e ↦ rw e (
          acquire_after_sweep-IsTiled member max_records (or_default timeout s.default_lock_timeout)
            fetch now (sweep_timers_inline now s) log (sweep_inline-IsTiled now s h))
    ]
