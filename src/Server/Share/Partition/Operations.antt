-- ===== src/Server/Share/Partition/Operations.antt =====
-- server/share/partition.rs: any sequence of methods and restarts on a share partition.
use bifrox.Prelude.{
  ℕ, ◌+◌, ◌^◌, ◌≤◌, ◌<◌, ◌≡◌, sym, ap, subst, ◌∙◌, inl, inr, Option, List, [], ◌∷◌, All, Occurs,
  arith,
}
use bifrox.Prelude.Text.{Text}
use bifrox.Server.Share.Batches.{InFlightBatch}
use bifrox.Server.Share.Batches.Tiling.{Tiled, Tiled-bound}
use bifrox.Server.Share.Partition.{SharePartition, new, restore_batches, check_lock_timeouts}
use bifrox.Server.Share.Partition.Acknowledge.{AckBatch, acknowledge}
use bifrox.Server.Share.Partition.Acquire.{Fetch, acquire_records}
use bifrox.Server.Share.Partition.Order.{InOrder, IsTiled, sweep-IsTiled, acknowledge-IsTiled}
use bifrox.Server.Share.Partition.Fetched.{IsLog, acquire-IsTiled}
use bifrox.Server.Share.Partition.Restart.{restart, restart-released}

pub data Operation : Type 0 where
  acquires : Text → ℕ → Option ℕ → Fetch → ℕ → Operation
  acknowledges : Text → List AckBatch → ℕ → Operation
  checks : ℕ → Operation
  restarts : Operation

unfoldable pub apply : Operation → SharePartition → SharePartition
apply (acquires member max_records timeout fetch now) s =
    (acquire_records member max_records timeout fetch now s).1
apply (acknowledges member acks now) s = (acknowledge member acks now s).1
apply (checks now) s = (check_lock_timeouts now s).1
apply restarts s = restart s

unfoldable pub apply_all : List Operation → SharePartition → SharePartition
apply_all [] s = s
apply_all (op ∷ ops) s = apply_all ops (apply op s)

-- The log gives its records in order, and no acknowledged range ends before it begins.
abbrev pub IsProper : Operation → Type 0
IsProper (acquires member max_records timeout fetch now) = IsLog fetch
IsProper (acknowledges member acks now) = InOrder acks
IsProper (checks now) = Unit
IsProper restarts = Unit

pub apply-IsTiled :
    (op : Operation) (s : SharePartition) → IsProper op → IsTiled s → IsTiled (apply op s)
unfolding apply check_lock_timeouts
apply-IsTiled (acquires member max_records timeout fetch now) s p h =
    acquire-IsTiled member max_records timeout fetch now s p h
apply-IsTiled (acknowledges member acks now) s p h = acknowledge-IsTiled member acks now s p h
apply-IsTiled (checks now) s p h = sweep-IsTiled now s h
apply-IsTiled restarts s p h = (restart-released s h).3

pub apply_all-IsTiled :
    (ops : List Operation) (s : SharePartition)
    → All IsProper ops
    → IsTiled s
    → IsTiled (apply_all ops s)
unfolding apply_all
apply_all-IsTiled [] s p h = h
apply_all-IsTiled (op ∷ ops) s (p, ps) h =
    apply_all-IsTiled ops (apply op s) ps (apply-IsTiled op s p h)

pub new-IsTiled :
    (topic : Text) (partition : ℕ) (group : Text) (timeout attempts start : ℕ)
    → start < 2 ^ 64
    → IsTiled (new topic partition group timeout attempts start)
unfolding new restore_batches
new-IsTiled topic partition group timeout attempts start small = (omega arith, small)

abbrev pub HoldsOffset : ℕ → InFlightBatch → Type 0
HoldsOffset o b = (b.first_offset ≤ o) × (o ≤ b.last_offset)

Tiled-Occurs :
    (lo hi : ℕ) (bs : List InFlightBatch) (b : InFlightBatch)
    → Tiled lo hi bs
    → Occurs b bs
    → (lo ≤ b.first_offset) × (b.last_offset < hi)
Tiled-Occurs lo hi [] b h m = absurd m
Tiled-Occurs lo hi (c ∷ bs) b (l, g, r) (inl e) =
    subst (λ x. (lo ≤ x.first_offset) × (x.last_offset < hi)) (sym e)
      (l, omega (arith, Tiled-bound (c.last_offset + 1) hi bs r))
Tiled-Occurs lo hi (c ∷ bs) b (l, g, r) (inr m) =
    let (l', h') = Tiled-Occurs (c.last_offset + 1) hi bs b r m in (omega arith, h')

Tiled-unique :
    (lo hi o : ℕ) (bs : List InFlightBatch) (b c : InFlightBatch)
    → Tiled lo hi bs
    → Occurs b bs
    → Occurs c bs
    → HoldsOffset o b
    → HoldsOffset o c
    → b ≡ c
Tiled-unique lo hi o [] b c h m n x y = absurd m
Tiled-unique lo hi o (d ∷ bs) b c (l, g, r) (inl e) (inl e') x y = e ∙ sym e'
Tiled-unique lo hi o (d ∷ bs) b c (l, g, r) (inl e) (inr n) x y =
    let (lower, _) = Tiled-Occurs (d.last_offset + 1) hi bs c r n in
    let same = ap (λ z. z.last_offset) e in absurd (omega (arith, same))
Tiled-unique lo hi o (d ∷ bs) b c (l, g, r) (inr m) (inl e) x y =
    let (lower, _) = Tiled-Occurs (d.last_offset + 1) hi bs b r m in
    let same = ap (λ z. z.last_offset) e in absurd (omega (arith, same))
Tiled-unique lo hi o (d ∷ bs) b c (l, g, r) (inr m) (inr n) x y =
    Tiled-unique (d.last_offset + 1) hi o bs b c r m n x y

-- After any sequence of methods and restarts on a new partition, where the log gives its records in
-- order and no acknowledged range ends before it begins, an offset is in at most one batch, and the
-- offsets of a batch are at or behind the watermark and before the next offset to fetch.
pub one_batch_per_offset :
    (ops : List Operation) (topic : Text) (partition : ℕ) (group : Text)
    (timeout attempts start : ℕ)
    → start < 2 ^ 64
    → All IsProper ops
    → let s = apply_all ops (new topic partition group timeout attempts start) in
      (o : ℕ) (b c : InFlightBatch)
      → Occurs b s.batches
      → Occurs c s.batches
      → HoldsOffset o b
      → HoldsOffset o c
      → (b ≡ c) × (s.start_offset ≤ o) × (o < s.next_fetch_offset)
one_batch_per_offset ops topic partition group timeout attempts start small proper =
    let s = apply_all ops (new topic partition group timeout attempts start) in
    let (h, _) =
      apply_all-IsTiled ops (new topic partition group timeout attempts start) proper
        (new-IsTiled topic partition group timeout attempts start small) in
    λ o b c m n x y.
      let (lower, upper) = Tiled-Occurs s.start_offset s.next_fetch_offset s.batches b h m in
      (
        Tiled-unique s.start_offset s.next_fetch_offset o s.batches b c h m n x y,
        omega arith,
        omega arith,
      )
