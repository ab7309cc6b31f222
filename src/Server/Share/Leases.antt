-- ===== src/Server/Share/Leases.antt =====
-- server/share/partition.rs: leases and their timers, in `acknowledge`.
pub mod Sweeps
pub mod Grants
pub mod Registered
pub mod Ordered
pub mod Kept
pub mod Expiry
use mathlib.Core.List.{append-nil}
use bifrox.Prelude.{
  ℕ, zero, suc, ◌+◌, ◌-◌, ◌%◌, ◌^◌, ◌≤◌, ◌<◌, ◌≡◌, ◌≢◌, refl, sym, ap, subst, ◌∙◌, inl, inr, ◌⊎◌,
  Bool, true, false, ◌&&◌, Option, none, some, List, [], ◌∷◌, ◌++◌, ltb, leb, if◌then◌else◌, All,
  All-append, Occurs, Bool-cases, ltb→lt, not_ltb→le, arith,
}
use Prim.Native.Nat.{min, max}
use bifrox.Prelude.Text.{Text, same_text, same_text_iff}
use bifrox.Server.Share.Batches.{InFlightBatch, is_acquired, meets, keys_where, visit}
use bifrox.Server.Share.Batches.Tiling.{Tiled}
use bifrox.Server.Share.Batches.Passes.{
  Divides, scan, visit-scan, visit-Tiled, scan-All, scan-All_made,
}
use bifrox.Server.Share.Timers.{
  ExpiryTimer, InOrder, insert_timer, remove_timer, Occurs-insert_timer_self, Occurs-insert_timer,
  Occurs-remove_timer,
}
use bifrox.Server.Share.Partition.{
  Sweep, is_lease_of, owned_by, has_lapsed, lapse, let_go, expire_batch, sweep_loop,
}
use bifrox.Server.Share.Partition.Order.{ack_batch-Divides, expire_batch-Divides}
use bifrox.Server.Share.Partition.Acknowledge.{
  AckBatch, AcknowledgeType, accept, release, reject, renew, yield, Acking, timer_of, timer_over,
  cancel, arm, renewal, slices, left_slice, middle_slice, right_slice, retimed, ack_batch,
  ack_state,
}

abbrev pub timer_for : ℕ → Text → InFlightBatch → ExpiryTimer
timer_for at owner b = record {
  expire_at = at + b.lock_timeout;
  first_offset = b.first_offset;
  last_offset = b.last_offset;
  member_id = owner;
}

-- A leased batch has an owner, a time and a timer over its whole range.
abbrev pub Timed : List ExpiryTimer → InFlightBatch → Type 0
Timed ts b =
    is_acquired b.state ≡ true
    → (owner : Text) × (at : ℕ) × (b.acquired_by ≡ some owner)
      × (b.acquired_at ≡ some at)
      × Occurs (timer_for at owner b) ts

Occurs-cancel :
    (u : ExpiryTimer) (o : Option ExpiryTimer) (ts : List ExpiryTimer)
    → o ≢ some u
    → Occurs u ts
    → Occurs u (cancel o ts)
Occurs-cancel u none ts differ m = m
Occurs-cancel u (some t) ts differ m = Occurs-remove_timer u t ts (λ e. differ (ap some e)) m

Occurs-arm :
    (u : ExpiryTimer) (o : Option ExpiryTimer) (ts : List ExpiryTimer)
    → Occurs u ts
    → Occurs u (arm o ts)
Occurs-arm u none ts m = m
Occurs-arm u (some t) ts m = Occurs-insert_timer u t ts m

Occurs-arm_if :
    (u : ExpiryTimer) (b : Bool) (o : Option ExpiryTimer) (ts : List ExpiryTimer)
    → Occurs u ts
    → Occurs u (if b then arm o ts else ts)
Occurs-arm_if u true o ts m = Occurs-arm u o ts m
Occurs-arm_if u false o ts m = m

Occurs-renewal :
    (u : ExpiryTimer) (type : AcknowledgeType) (now timeout first last : ℕ) (member : Text)
    (ts : List ExpiryTimer)
    → Occurs u ts
    → Occurs u (renewal type now timeout first last member ts)
Occurs-renewal u accept now timeout first last member ts m = m
Occurs-renewal u release now timeout first last member ts m = m
Occurs-renewal u reject now timeout first last member ts m = m
Occurs-renewal u renew now timeout first last member ts m = Occurs-insert_timer u _ ts m
Occurs-renewal u yield now timeout first last member ts m = m

-- Acknowledging a batch keeps every timer but the batch's own.
retimed_keeps :
    (u : ExpiryTimer) (member : Text) (now : ℕ) (ack : AckBatch) (b : InFlightBatch)
    (ts : List ExpiryTimer)
    → timer_over b b.first_offset b.last_offset ≢ some u
    → Occurs u ts
    → Occurs u (retimed member now ack b ts)
retimed_keeps u member now ack b ts differ m = Occurs-arm_if u _ _ _ (
    Occurs-renewal u ack.ack_type now b.lock_timeout _ _ member _ (
      Occurs-arm_if u _ _ _
        (Occurs-cancel u (timer_over b b.first_offset b.last_offset) ts differ m)))

abbrev first_or : ℕ → Option ExpiryTimer → ℕ
first_or d none = d
first_or d (some t) = t.first_offset

timer_over_first :
    (b : InFlightBatch) (at : Option ℕ) (by : Option Text) (timeout first last : ℕ)
    (u : ExpiryTimer)
    → u.first_offset ≢ first
    → timer_of at by timeout first last ≢ some u
timer_over_first b none by timeout first last u differ e = cc e
timer_over_first b (some at) none timeout first last u differ e = cc e
timer_over_first b (some at) (some owner) timeout first last u differ e =
    differ (sym (ap (first_or first) e))

ack_keeps :
    (member : Text) (now attempts : ℕ) (ack : AckBatch) (b c : InFlightBatch) (s : Acking)
    → c.first_offset ≢ b.first_offset
    → Timed s.timers c
    → Timed (ack_batch member now attempts ack b s).1.timers c
unfolding ack_batch
ack_keeps member now attempts ack b c s differ timed l =
    let (owner, at, by, since, m) = timed l in
    (
      owner,
      at,
      by,
      since,
      elim (Bool-cases (is_lease_of member b)) [
        | inl e ↦ rw e (
            retimed_keeps (timer_for at owner c) member now ack b s.timers
              (timer_over_first b b.acquired_at b.acquired_by b.lock_timeout b.first_offset
                b.last_offset (timer_for at owner c) differ)
              m)
        | inr e ↦ rw e m
      ],
    )

timer_made :
    (at' : Option ℕ) (by' : Option Text) (timeout first last at : ℕ) (owner : Text)
    → by' ≡ some owner
    → at' ≡ some at
    → timer_of at' by' timeout first last ≡ timer_of (some at) (some owner) timeout first last
timer_made at' by' timeout first last at owner e e' = rw (e, e') refl

Occurs-arm_made :
    (u : ExpiryTimer) (x : Bool) (o : Option ExpiryTimer) (ts : List ExpiryTimer)
    → x ≡ true
    → o ≡ some u
    → Occurs u (if x then arm o ts else ts)
Occurs-arm_made u x o ts e e' = rw (e, e') (Occurs-insert_timer_self u ts)

-- A slice that is there only if a test holds.
slice_made :
    (x : Bool) (piece : InFlightBatch) (ts : List ExpiryTimer)
    → (x ≡ true → Timed ts piece)
    → All (Timed ts) (if x then piece ∷ [] else [])
slice_made true piece ts h = (h refl, tt)
slice_made false piece ts h = tt

middle_made :
    (type : AcknowledgeType) (x : Bool) (o : Option ExpiryTimer) (member : Text)
    (now attempts first last : ℕ) (b : InFlightBatch) (ts : List ExpiryTimer)
    → let after = renewal type now b.lock_timeout first last member ts in
      Timed (if x then arm o after else after) (middle_slice member now attempts type b first last)
middle_made accept x o member now attempts first last b ts l = cc l
middle_made release x o member now attempts first last b ts l = ground arith
middle_made reject x o member now attempts first last b ts l = cc l
middle_made renew x o member now attempts first last b ts l =
    (member, now, refl, refl, Occurs-arm_if _ x o _ (Occurs-insert_timer_self _ ts))
middle_made yield x o member now attempts first last b ts l = cc l

slices_made :
    (member : Text) (now attempts : ℕ) (ack : AckBatch) (b : InFlightBatch) (ts : List ExpiryTimer)
    (owner : Text) (at : ℕ)
    → b.acquired_by ≡ some owner
    → b.acquired_at ≡ some at
    → All (Timed (retimed member now ack b ts)) (slices member now attempts ack b)
slices_made member now attempts ack b ts owner at by since =
    let first = max b.first_offset ack.first_offset in
    let last = min b.last_offset ack.last_offset in
    let left = record b { last_offset = first - 1 } in
    let right = record b { first_offset = last + 1 } in
    let after = retimed member now ack b ts in
    All-append (Timed after) (left_slice b first)
      (middle_slice member now attempts ack.ack_type b first last ∷ right_slice b last)
      (slice_made (ltb b.first_offset first) left after (λ e l. (
        owner,
        at,
        by,
        since,
        Occurs-arm_if _ (ltb last b.last_offset) _ _ (
            Occurs-renewal _ ack.ack_type now b.lock_timeout first last member _ (
              Occurs-arm_made _ (ltb b.first_offset first) _ _ e (
                timer_made b.acquired_at b.acquired_by b.lock_timeout b.first_offset (first - 1) at
                  owner by since))),
      )))
      (
        middle_made ack.ack_type (ltb last b.last_offset) _ member now attempts first last b _,
        slice_made (ltb last b.last_offset) right after (λ e l. (
          owner,
          at,
          by,
          since,
          Occurs-arm_made _ (ltb last b.last_offset) _ _ e (
              timer_made b.acquired_at b.acquired_by b.lock_timeout (last + 1) b.last_offset at
                owner by since),
        )),
      )

lease_is_acquired :
    (member : Text) (b : InFlightBatch) → is_lease_of member b ≡ true → is_acquired b.state ≡ true
lease_is_acquired member b h = ground arith

ack_makes :
    (member : Text) (now attempts : ℕ) (ack : AckBatch) (b : InFlightBatch) (s : Acking)
    → Timed s.timers b
    → All
        (Timed (ack_batch member now attempts ack b s).1.timers)
        (ack_batch member now attempts ack b s).0
unfolding ack_batch
ack_makes member now attempts ack b s timed = elim (Bool-cases (is_lease_of member b)) [
  | inl e ↦
      let (owner, at, by, since, m) = timed (lease_is_acquired member b e) in
      rw e (slices_made member now attempts ack b s.timers owner at by since)
  | inr e ↦ rw e (timed, tt)
]

-- The timers and the batches of a partition, all of whose leases have their timer.
abbrev pub AllTimed : List ExpiryTimer → List InFlightBatch → Type 0
AllTimed ts bs = All (Timed ts) bs

pub ack_visit-AllTimed :
    (member : Text) (now attempts lo hi : ℕ) (ack : AckBatch) (bs : List InFlightBatch) (s : Acking)
    → ack.first_offset ≤ ack.last_offset
    → Tiled lo hi bs
    → AllTimed s.timers bs
    → let v =
        visit
          (ack_batch member now attempts ack)
          (keys_where (meets ack.first_offset ack.last_offset) bs)
          (bs, s) in
      AllTimed v.1.timers v.0
ack_visit-AllTimed member now attempts lo hi ack bs s ordered tiled h =
    let f = ack_batch member now attempts ack in
    let p = meets ack.first_offset ack.last_offset in
    let divides = ack_batch-Divides member now attempts ack ordered in
    rw (visit-scan p f lo hi [] bs s divides tt tiled) (
      scan-All p f (λ a c. Timed a.timers c) lo hi [] bs s divides
        (λ b c a e differ q. ack_keeps member now attempts ack b c a differ q)
        (λ b a le e q. ack_makes member now attempts ack b a q) tt tiled tt h)
