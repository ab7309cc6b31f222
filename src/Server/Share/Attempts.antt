-- ===== src/Server/Share/Attempts.antt =====
-- server/share/partition.rs: the delivery counts of the batches, in the steps of the loops.
pub mod Ceiling
use bifrox.Prelude.{
  ℕ, zero, suc, ◌+◌, ◌-◌, ◌%◌, ◌^◌, ◌≤◌, ◌<◌, ◌≡◌, refl, sym, ap, subst, inl, inr, Bool, true,
  false, not, ◌&&◌, ◌||◌, Option, none, some, List, [], ◌∷◌, ◌++◌, ltb, leb, ◌==◌, if◌then◌else◌,
  length, All, All-append, All-Occurs, Occurs, Bool-cases, arith,
}
use Prim.Native.Nat.{min, max}
use bifrox.Prelude.Text.{Text}
use bifrox.Server.Share.Batches.{
  InFlightBatch, available, acquired, is_available, is_terminal, insert, keys_where, meets, visit,
  advance,
}
use bifrox.Server.Share.Batches.Tiling.{Tiled}
use bifrox.Server.Share.Batches.Passes.{Divides, scan, visit-scan, visit-Tiled, scan-All_made}
use bifrox.Server.Share.Timers.{ExpiryTimer}
use bifrox.Server.Share.Partition.{
  SharePartition, Sweep, is_lease_of, has_lapsed, let_go, expire_batch, sweep_loop, new, restore,
  restore_batches, advance_watermark, sweep_timers_internal, sweep_timers_inline, first_expired,
  check_lock_timeouts,
}
use bifrox.Server.Share.Partition.Acknowledge.{
  AckBatch, AcknowledgeType, accept, release, reject, renew, yield, Acking, ack_state, ack_count,
  slices, left_slice, middle_slice, right_slice, ack_batch, ack_all, acknowledge,
}
use bifrox.Server.Share.Partition.Acquire.{
  Fetch, Acquiring, batch_len, acquire_batch, split_offset, last_of, take_fresh, fresh_lease,
  valid_frames, acquire_fresh, or_default, acquire_after_sweep, acquire_records,
}
use bifrox.Server.Share.Partition.Order.{
  InOrder, IsTiled, ack_batch-Divides, expire_batch-Divides, acquire_batch-Divides, sweep-IsTiled,
  sweep_inline-IsTiled,
}
use bifrox.Server.Share.Partition.Operations.{
  Operation, acquires, acknowledges, checks, restarts, IsProper, apply, apply_all, apply-IsTiled,
  new-IsTiled,
}
use bifrox.Server.Share.Leases.Grants.{All-insert}
use bifrox.Server.Share.Leases.Kept.{advance-All}

-- The delivery count of a batch is at most the ceiling, and below it where the batch is available.
abbrev pub Spent : ℕ → InFlightBatch → Type 0
Spent attempts b =
    (b.delivery_count ≤ attempts) × (is_available b.state ≡ true → b.delivery_count < attempts)

-- A loop whose steps make such batches of such batches.
module _ {S : Type 0} where
  pub visit-Spent :
      (attempts lo hi : ℕ) (p : InFlightBatch → Bool)
      (f : InFlightBatch → S → List InFlightBatch × S) (bs : List InFlightBatch) (s : S)
      → Divides p f
      → ((b : InFlightBatch) (s : S) → Spent attempts b → All (Spent attempts) (f b s).0)
      → Tiled lo hi bs
      → All (Spent attempts) bs
      → All (Spent attempts) (visit f (keys_where p bs) (bs, s)).0
  visit-Spent attempts lo hi p f bs s divides make tiled h =
      rw (visit-scan p f lo hi [] bs s divides tt tiled) (
        scan-All_made p f (Spent attempts) (Spent attempts) bs s (λ b a e q. make b a q)
          (λ b e q. q) h)

pub expire-Spent :
    (now attempts : ℕ) (t : ExpiryTimer) (b : InFlightBatch) (w : Sweep)
    → Spent attempts b
    → All (Spent attempts) (expire_batch now attempts t b w).0
unfolding expire_batch
expire-Spent now attempts t b w (le, lt) =
    elim (Bool-cases (is_lease_of t.member_id b && has_lapsed now b b.acquired_at)) [
      | inl e ↦ rw e (elim (Bool-cases (leb attempts b.delivery_count)) [
        | inl c ↦ rw c ((le, (λ l. cc l)), tt)
        | inr c ↦ rw c ((le, (λ l. ground arith)), tt)
      ])
      | inr e ↦ rw e ((le, lt), tt)
    ]

middle-Spent :
    (member : Text) (now attempts first last : ℕ) (type : AcknowledgeType) (b : InFlightBatch)
    → 0 < attempts
    → b.delivery_count ≤ attempts
    → Spent attempts (middle_slice member now attempts type b first last)
middle-Spent member now attempts first last accept b pos le = (le, λ l. cc l)
middle-Spent member now attempts first last release b pos le = (le, λ l. ground arith)
middle-Spent member now attempts first last reject b pos le = (le, λ l. cc l)
middle-Spent member now attempts first last renew b pos le = (le, λ l. cc l)
middle-Spent member now attempts first last yield b pos le = (omega arith, λ l. omega arith)

slice-Spent :
    (attempts : ℕ) (x : Bool) (piece : InFlightBatch)
    → Spent attempts piece
    → All (Spent attempts) (if x then piece ∷ [] else [])
slice-Spent attempts true piece h = (h, tt)
slice-Spent attempts false piece h = tt

pub ack-Spent :
    (member : Text) (now attempts : ℕ) (ack : AckBatch) (b : InFlightBatch) (a : Acking)
    → 0 < attempts
    → Spent attempts b
    → All (Spent attempts) (ack_batch member now attempts ack b a).0
unfolding ack_batch
ack-Spent member now attempts ack b a pos (le, lt) =
    let first = max b.first_offset ack.first_offset in
    let last = min b.last_offset ack.last_offset in
    let left = record b { last_offset = first - 1 } in
    let right = record b { first_offset = last + 1 } in
    elim (Bool-cases (is_lease_of member b)) [
      | inl e ↦ rw e (
          All-append (Spent attempts) (left_slice b first)
            (middle_slice member now attempts ack.ack_type b first last ∷ right_slice b last)
            (slice-Spent attempts (ltb b.first_offset first) left (le, lt))
            (
              middle-Spent member now attempts first last ack.ack_type b pos le,
              slice-Spent attempts (ltb last b.last_offset) right (le, lt),
            ))
      | inr e ↦ rw e ((le, lt), tt)
    ]

pub acquire-Spent :
    (member : Text) (now timeout max_records attempts : ℕ) (fetch : Fetch) (b : InFlightBatch)
    (a : Acquiring)
    → attempts < 2 ^ 16
    → Spent attempts b
    → All (Spent attempts) (acquire_batch member now timeout max_records fetch b a).0
unfolding acquire_batch
acquire-Spent member now timeout max_records attempts fetch b a small (le, lt) =
    let needed = max_records - length a.acquired_infos in
    elim (Bool-cases (is_available b.state)) [
      | inl i ↦
          let less = lt i in
          let no_wrap : (b.delivery_count + 1) % 2 ^ 16 ≡ b.delivery_count + 1 = omega arith in
          elim (Bool-cases (leb max_records (length a.acquired_infos))) [
            | inl e ↦ rw (i, e) ((le, lt), tt)
            | inr e ↦ elim (Bool-cases (leb (batch_len b) needed)) [
              | inl c ↦ rw (i, e, c, no_wrap) ((omega arith, (λ l. cc l)), tt)
              | inr c ↦ rw (i, e, c, no_wrap) ((omega arith, (λ l. cc l)), ((le, (λ l. less)), tt))
            ]
          ]
      | inr i ↦ elim (Bool-cases (leb max_records (length a.acquired_infos))) [
        | inl e ↦ rw (i, e) ((le, lt), tt)
        | inr e ↦ rw (i, e) ((le, lt), tt)
      ]
    ]
