-- ===== src/Server/Share/Leases/Sweeps.antt =====
-- server/share/partition.rs: leases and their timers, in `sweep_timers_internal`.
use bifrox.Prelude.{
  ℕ, ◌+◌, ◌≤◌, ◌<◌, ◌≡◌, ap, inl, inr, true, false, ◌&&◌, some, List, [], ◌∷◌, ltb, leb, All,
  Bool-cases, ltb→lt, not_ltb→le, arith,
}
use bifrox.Prelude.Text.{Text, same_text_iff}
use bifrox.Server.Share.Batches.{InFlightBatch, is_acquired, meets, keys_where, visit}
use bifrox.Server.Share.Batches.Tiling.{Tiled}
use bifrox.Server.Share.Batches.Passes.{visit-scan, visit-Tiled, scan-All_made}
use bifrox.Server.Share.Timers.{ExpiryTimer, InOrder}
use bifrox.Server.Share.Partition.{Sweep, is_lease_of, has_lapsed, expire_batch, sweep_loop}
use bifrox.Server.Share.Partition.Order.{expire_batch-Divides}
use bifrox.Server.Share.Leases.{timer_for, Timed, AllTimed}

lease_is_over :
    (now at : ℕ) (owner : Text) (t : ExpiryTimer) (b : InFlightBatch)
    → is_acquired b.state ≡ true
    → b.acquired_by ≡ some owner
    → b.acquired_at ≡ some at
    → timer_for at owner b ≡ t
    → t.expire_at ≤ now
    → (is_lease_of t.member_id b && has_lapsed now b b.acquired_at) ≡ true
lease_is_over now at owner t b l by since same over =
    let member = ap (λ u. u.member_id) same in
    let time = ap (λ u. u.expire_at) same in
    ground (arith, member, time, same_text_iff owner t.member_id)

lease_stays :
    (now : ℕ) (t : ExpiryTimer) (b : InFlightBatch) (ts : List ExpiryTimer)
    → t.expire_at ≤ now
    → Timed (t ∷ ts) b
    → (is_lease_of t.member_id b && has_lapsed now b b.acquired_at) ≡ false
    → Timed ts b
lease_stays now t b ts over timed e l =
    let (owner, at, by, since, m) = timed l in
    elim m [
      | inl same ↦ cc (lease_is_over now at owner t b l by since same over)
      | inr m' ↦ (owner, at, by, since, m')
    ]

lapsed :
    (now attempts : ℕ) (t : ExpiryTimer) (b : InFlightBatch) (w : Sweep) (ts : List ExpiryTimer)
    → t.expire_at ≤ now
    → Timed (t ∷ ts) b
    → All (Timed ts) (expire_batch now attempts t b w).0
unfolding expire_batch
lapsed now attempts t b w ts over timed =
    elim (Bool-cases (is_lease_of t.member_id b && has_lapsed now b b.acquired_at)) [
      | inl e ↦ rw e (elim (Bool-cases (leb attempts b.delivery_count)) [
        | inl c ↦ rw c ((λ l. cc l), tt)
        | inr c ↦ rw c ((λ l. cc l), tt)
      ])
      | inr e ↦ rw e (lease_stays now t b ts over timed e, tt)
    ]

-- A batch that the loop passes over does not have the timer.
passed_over :
    (t : ExpiryTimer) (b : InFlightBatch) (ts : List ExpiryTimer)
    → b.first_offset ≤ b.last_offset
    → meets t.first_offset t.last_offset b ≡ false
    → Timed (t ∷ ts) b
    → Timed ts b
passed_over t b ts le out timed l =
    let (owner, at, by, since, m) = timed l in
    elim m [
      | inl same ↦
          let first = ap (λ u. u.first_offset) same in
          let last = ap (λ u. u.last_offset) same in ground (arith, first, last)
      | inr m' ↦ (owner, at, by, since, m')
    ]

Ordered-of_Tiled :
    (lo hi : ℕ) (ts : List ExpiryTimer) (bs : List InFlightBatch)
    → Tiled lo hi bs
    → AllTimed ts bs
    → All (λ b. (b.first_offset ≤ b.last_offset) × Timed ts b) bs
Ordered-of_Tiled lo hi ts [] h q = tt
Ordered-of_Tiled lo hi ts (b ∷ bs) (l, g, r) (q, qs) =
    ((g, q), Ordered-of_Tiled (b.last_offset + 1) hi ts bs r qs)

sweep_visit-AllTimed :
    (now attempts lo hi : ℕ) (t : ExpiryTimer) (ts : List ExpiryTimer) (bs : List InFlightBatch)
    (w : Sweep)
    → t.expire_at ≤ now
    → Tiled lo hi bs
    → AllTimed (t ∷ ts) bs
    → AllTimed ts
        (visit
          (expire_batch now attempts t)
          (keys_where (meets t.first_offset t.last_offset) bs)
          (bs, w)).0
sweep_visit-AllTimed now attempts lo hi t ts bs w over tiled h =
    let f = expire_batch now attempts t in
    let p = meets t.first_offset t.last_offset in
    rw (visit-scan p f lo hi [] bs w (expire_batch-Divides now attempts t p) tt tiled) (
      scan-All_made p f (λ b. (b.first_offset ≤ b.last_offset) × Timed (t ∷ ts) b) (Timed ts) bs w
        (λ b v e q. lapsed now attempts t b v ts over q.1) (λ b e q. passed_over t b ts q.0 e q.1)
        (Ordered-of_Tiled lo hi (t ∷ ts) bs tiled h))

-- After the loop every lease has a timer among those that are left.
pub sweep_loop-AllTimed :
    (now attempts lo hi : ℕ) (ts : List ExpiryTimer) (bs : List InFlightBatch) (w : Sweep)
    → Tiled lo hi bs
    → AllTimed ts bs
    → let r = sweep_loop now attempts ts (bs, w) in AllTimed r.0 r.1
unfolding sweep_loop
sweep_loop-AllTimed now attempts lo hi [] bs w tiled h = h
sweep_loop-AllTimed now attempts lo hi (t ∷ ts) bs w tiled h =
    let f = expire_batch now attempts t in
    let p = meets t.first_offset t.last_offset in
    let v = visit f (keys_where p bs) (bs, w) in
    elim (Bool-cases (ltb now t.expire_at)) [
      | inl e ↦ rw e h
      | inr e ↦ rw e (
          sweep_loop-AllTimed now attempts lo hi ts v.0 v.1
            (visit-Tiled p f lo hi bs w (expire_batch-Divides now attempts t p) tiled)
            (sweep_visit-AllTimed now attempts lo hi t ts bs w (not_ltb→le now t.expire_at e) tiled
              h))
    ]

weaken :
    (x y : ℕ) (ts : List ExpiryTimer)
    → x < y
    → All (λ u. y ≤ u.expire_at) ts
    → All (λ u. x < u.expire_at) ts
weaken x y [] lt h = tt
weaken x y (t ∷ ts) lt (h, hs) = (omega arith, weaken x y ts lt hs)

-- The timers that are left have not expired.
pub sweep_loop_unexpired :
    (now attempts : ℕ) (ts : List ExpiryTimer) (bs : List InFlightBatch) (w : Sweep)
    → InOrder ts
    → All (λ u. now < u.expire_at) (sweep_loop now attempts ts (bs, w)).0
unfolding sweep_loop
sweep_loop_unexpired now attempts [] bs w h = tt
sweep_loop_unexpired now attempts (t ∷ ts) bs w (h, hs) =
    let f = expire_batch now attempts t in
    let p = meets t.first_offset t.last_offset in
    let v = visit f (keys_where p bs) (bs, w) in
    elim (Bool-cases (ltb now t.expire_at)) [
      | inl e ↦
          rw e (ltb→lt now t.expire_at e, weaken now t.expire_at ts (ltb→lt now t.expire_at e) h)
      | inr e ↦ rw e (sweep_loop_unexpired now attempts ts v.0 v.1 hs)
    ]
