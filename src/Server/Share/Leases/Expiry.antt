-- ===== src/Server/Share/Leases/Expiry.antt =====
-- server/share/partition.rs: leases after `check_lock_timeouts`.
use bifrox.Prelude.{ℕ, ◌+◌, ◌^◌, ◌<◌, ◌≡◌, true, some, List, All, All-Occurs, Occurs}
use bifrox.Prelude.Text.{Text}
use bifrox.Server.Share.Batches.{InFlightBatch, is_acquired}
use bifrox.Server.Share.Partition.{
  SharePartition, new, advance_watermark, sweep_timers_internal, check_lock_timeouts,
}
use bifrox.Server.Share.Partition.Operations.{Operation, IsProper, apply_all, new-IsTiled}
use bifrox.Server.Share.Leases.{timer_for, Timed}
use bifrox.Server.Share.Leases.Sweeps.{sweep_loop_unexpired}
use bifrox.Server.Share.Leases.Kept.{IsTimed, sweep-IsTimed, apply_all-IsTimed, new-IsTimed}

-- The timers that a sweep leaves have not expired.
sweep_unexpired :
    (now : ℕ) (s : SharePartition)
    → IsTimed s
    → All (λ u. now < u.expire_at) (sweep_timers_internal now s).1.timers
unfolding sweep_timers_internal advance_watermark
sweep_unexpired now s (timed, order) =
    sweep_loop_unexpired now s.max_delivery_attempts s.timers s.batches _ order

-- After any sequence of methods and restarts on a new partition, where the log gives its records in
-- order and no acknowledged range ends before it begins, a check of the lock timeouts leaves no lease
-- whose time is over: a batch that is still leased has an owner, and a time of acquisition from which
-- its lock timeout has not passed.
pub no_lease_outlives :
    (ops : List Operation) (topic : Text) (partition : ℕ) (group : Text)
    (timeout attempts start now : ℕ)
    → start < 2 ^ 64
    → All IsProper ops
    → let s = apply_all ops (new topic partition group timeout attempts start) in
      (b : InFlightBatch)
      → Occurs b (check_lock_timeouts now s).1.batches
      → is_acquired b.state ≡ true
      → (owner : Text) × (at : ℕ) × (b.acquired_by ≡ some owner)
        × (b.acquired_at ≡ some at)
        × (now < at + b.lock_timeout)
unfolding check_lock_timeouts
no_lease_outlives ops topic partition group timeout attempts start now small proper =
    let first = new topic partition group timeout attempts start in
    let s = apply_all ops first in
    let (h, t) =
      apply_all-IsTimed ops first proper
        (new-IsTiled topic partition group timeout attempts start small)
        (new-IsTimed topic partition group timeout attempts start) in
    λ b m l.
      let swept = (sweep_timers_internal now s).1 in
      let (owner, at, by, since, held) =
        All-Occurs (Timed swept.timers) b swept.batches (sweep-IsTimed now s h t).0 m l in
      (
        owner,
        at,
        by,
        since,
        All-Occurs (λ u. now < u.expire_at) (timer_for at owner b) swept.timers
            (sweep_unexpired now s t) held,
      )
