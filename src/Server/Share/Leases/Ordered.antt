-- ===== src/Server/Share/Leases/Ordered.antt =====
-- server/share/partition.rs: the order of the timers.
use bifrox.Prelude.{
  ℕ, ◌+◌, ◌-◌, inl, inr, Bool, true, false, Option, none, some, List, [], ◌∷◌, ltb, if◌then◌else◌,
  Bool-cases,
}
use Prim.Native.Nat.{min, max}
use bifrox.Prelude.Text.{Text}
use bifrox.Server.Share.Batches.{InFlightBatch, find, keys_where, meets, visit, visit_found}
use bifrox.Server.Share.Timers
use bifrox.Server.Share.Timers.{ExpiryTimer, insert_timer-InOrder, remove_timer-InOrder}
use bifrox.Server.Share.Partition.{Sweep, is_lease_of, sweep_loop, expire_batch}
use bifrox.Server.Share.Partition.Acknowledge.{
  AckBatch, AcknowledgeType, accept, release, reject, renew, yield, Acking, timer_over, cancel, arm,
  renewal, ack_batch,
}

pub sweep_loop-InOrder :
    (now attempts : ℕ) (ts : List ExpiryTimer) (bs : List InFlightBatch) (w : Sweep)
    → Timers.InOrder ts
    → Timers.InOrder (sweep_loop now attempts ts (bs, w)).0
unfolding sweep_loop
sweep_loop-InOrder now attempts [] bs w h = h
sweep_loop-InOrder now attempts (t ∷ ts) bs w (h, hs) =
    let v =
      visit (expire_batch now attempts t) (keys_where (meets t.first_offset t.last_offset) bs)
        (bs, w) in
    elim (Bool-cases (ltb now t.expire_at)) [
      | inl e ↦ rw e (h, hs)
      | inr e ↦ rw e (sweep_loop-InOrder now attempts ts v.0 v.1 hs)
    ]

cancel-InOrder :
    (o : Option ExpiryTimer) (ts : List ExpiryTimer)
    → Timers.InOrder ts
    → Timers.InOrder (cancel o ts)
cancel-InOrder none ts h = h
cancel-InOrder (some t) ts h = remove_timer-InOrder t ts h

arm_if-InOrder :
    (x : Bool) (o : Option ExpiryTimer) (ts : List ExpiryTimer)
    → Timers.InOrder ts
    → Timers.InOrder (if x then arm o ts else ts)
arm_if-InOrder false o ts h = h
arm_if-InOrder true none ts h = h
arm_if-InOrder true (some t) ts h = insert_timer-InOrder t ts h

renewal-InOrder :
    (type : AcknowledgeType) (now timeout first last : ℕ) (member : Text) (ts : List ExpiryTimer)
    → Timers.InOrder ts
    → Timers.InOrder (renewal type now timeout first last member ts)
renewal-InOrder renew now timeout first last member ts h = insert_timer-InOrder _ ts h
renewal-InOrder accept now timeout first last member ts h = h
renewal-InOrder release now timeout first last member ts h = h
renewal-InOrder reject now timeout first last member ts h = h
renewal-InOrder yield now timeout first last member ts h = h

pub ack_batch-InOrder :
    (member : Text) (now attempts : ℕ) (ack : AckBatch) (b : InFlightBatch) (a : Acking)
    → Timers.InOrder a.timers
    → Timers.InOrder (ack_batch member now attempts ack b a).1.timers
unfolding ack_batch
ack_batch-InOrder member now attempts ack b a h =
    let first = max b.first_offset ack.first_offset in
    let last = min b.last_offset ack.last_offset in
    let kept = cancel (timer_over b b.first_offset b.last_offset) a.timers in
    let left =
      if ltb b.first_offset first
      then arm (timer_over b b.first_offset (first - 1)) kept
      else kept in
    elim (Bool-cases (is_lease_of member b)) [
      | inl e ↦ rw e (
          arm_if-InOrder (ltb last b.last_offset) (timer_over b (last + 1) b.last_offset)
            (renewal ack.ack_type now b.lock_timeout first last member left)
            (renewal-InOrder ack.ack_type now b.lock_timeout first last member left (
              arm_if-InOrder (ltb b.first_offset first) (timer_over b b.first_offset (first - 1))
                kept (cancel-InOrder (timer_over b b.first_offset b.last_offset) a.timers h))))
      | inr e ↦ rw e h
    ]

found_keeps :
    {S : Type 0} (P : S → Type 0) (f : InFlightBatch → S → List InFlightBatch × S)
    → ((b : InFlightBatch) (s : S) → P s → P (f b s).1)
    → (key : ℕ) (bs : List InFlightBatch) (s : S) (found : Option InFlightBatch) → P s
    → P (visit_found f key (bs, s) found).1
found_keeps P f keep key bs s none h = h
found_keeps P f keep key bs s (some b) h = keep b s h

-- What every step keeps, the loop keeps.
pub visit_keeps :
    {S : Type 0} (P : S → Type 0) (f : InFlightBatch → S → List InFlightBatch × S)
    → ((b : InFlightBatch) (s : S) → P s → P (f b s).1)
    → (keys : List ℕ) (bs : List InFlightBatch) (s : S) → P s
    → P (visit f keys (bs, s)).1
unfolding visit
visit_keeps P f keep [] bs s h = h
visit_keeps P f keep (key ∷ keys) bs s h =
    let found = find key bs in
    visit_keeps P f keep keys (visit_found f key (bs, s) found).0
      (visit_found f key (bs, s) found).1 (found_keeps P f keep key bs s found h)
