-- ===== src/Server/Share/Partition/Inverted.antt =====
-- server/share/partition.rs: an acknowledged range that ends before it begins.
use bifrox.Prelude.{
  ℕ, ◌+◌, ◌-◌, ◌≤◌, ◌<◌, ◌≡◌, ◌≢◌, refl, ap, inl, inr, true, false, List, [], ◌∷◌, Occurs, arith,
  ==_refl,
}
use Prim.Native.Nat.{min, max}
use bifrox.Prelude.Text.{Text}
use bifrox.Server.Share.Batches.{
  InFlightBatch, is_terminal, find, insert, remove, insert_all, keys_where, meets, visit, advance,
}
use bifrox.Server.Share.Partition.{SharePartition, is_lease_of, advance_watermark}
use bifrox.Server.Share.Partition.Acknowledge.{
  AckBatch, Acking, slices, middle_slice, ack_batch, ack_all, acknowledge,
}
use bifrox.Server.Share.Partition.Operations.{HoldsOffset}

abbrev before_range : AckBatch → InFlightBatch → InFlightBatch
before_range ack b = record b { last_offset = ack.first_offset - 1 }

abbrev behind_range : AckBatch → InFlightBatch → InFlightBatch
behind_range ack b = record b { first_offset = ack.last_offset + 1 }

slices_inverted :
    (member : Text) (now attempts : ℕ) (ack : AckBatch) (b : InFlightBatch)
    → b.first_offset ≤ ack.last_offset
    → ack.last_offset + 1 < ack.first_offset
    → ack.first_offset ≤ b.last_offset
    → slices member now attempts ack b
      ≡ before_range ack b
        ∷ middle_slice member now attempts ack.ack_type b ack.first_offset ack.last_offset
        ∷ behind_range ack b
        ∷ []
slices_inverted member now attempts ack b l g r =
    let first : max b.first_offset ack.first_offset ≡ ack.first_offset = omega arith in
    let last : min b.last_offset ack.last_offset ≡ ack.last_offset = omega arith in
    rw (first, last) (ground arith)

stored_inverted :
    (x y z : InFlightBatch)
    → x.first_offset < z.first_offset
    → z.first_offset < y.first_offset
    → insert_all (x ∷ y ∷ z ∷ []) [] ≡ x ∷ z ∷ y ∷ []
unfolding insert_all insert
stored_inverted x y z g h = ground arith

remove-single : (b : InFlightBatch) → remove b.first_offset (b ∷ []) ≡ []
unfolding remove
remove-single b = rw (==_refl b.first_offset) refl

acked_inverted :
    (member : Text) (now attempts : ℕ) (ack : AckBatch) (b : InFlightBatch) (a : Acking)
    → is_lease_of member b ≡ true
    → b.first_offset ≤ ack.last_offset
    → ack.last_offset + 1 < ack.first_offset
    → ack.first_offset ≤ b.last_offset
    → (ack_all member now attempts (ack ∷ []) (b ∷ [], a)).0
      ≡ before_range ack b
        ∷ behind_range ack b
        ∷ middle_slice member now attempts ack.ack_type b ack.first_offset ack.last_offset
        ∷ []
unfolding ack_all visit keys_where find ack_batch
acked_inverted member now attempts ack b a e l g r =
    let meeting : meets ack.first_offset ack.last_offset b ≡ true = ground arith in
    let middle = middle_slice member now attempts ack.ack_type b ack.first_offset ack.last_offset in
    rw (meeting, ==_refl b.first_offset, e, slices_inverted member now attempts ack b l g r)
      (rw (remove-single b) (
        stored_inverted (before_range ack b) middle (behind_range ack b) (omega arith)
          (omega arith)))

not_passed :
    (start : ℕ) (b : InFlightBatch) (bs : List InFlightBatch)
    → is_terminal b.state ≡ false
    → (advance start (b ∷ bs)).1 ≡ b ∷ bs
unfolding advance
not_passed start b bs e = ground arith

lease_not_terminal :
    (member : Text) (b : InFlightBatch) → is_lease_of member b ≡ true → is_terminal b.state ≡ false
lease_not_terminal member b h = ground arith

-- Where a member's only lease is acknowledged with a range inside it that ends at least two offsets
-- before it begins, the offset behind the end is in two different batches afterwards.
pub acknowledge-Inverted :
    (member : Text) (ack : AckBatch) (now : ℕ) (s : SharePartition) (b : InFlightBatch)
    → s.batches ≡ b ∷ []
    → is_lease_of member b ≡ true
    → b.first_offset ≤ ack.last_offset
    → ack.last_offset + 1 < ack.first_offset
    → ack.first_offset ≤ b.last_offset
    → let s' = (acknowledge member (ack ∷ []) now s).1 in
      (c d : InFlightBatch) × Occurs c s'.batches
      × Occurs d s'.batches
      × (c ≢ d)
      × HoldsOffset (ack.last_offset + 1) c
      × HoldsOffset (ack.last_offset + 1) d
unfolding acknowledge advance_watermark
acknowledge-Inverted member ack now s b only e l g r =
    let c = before_range ack b in
    let d = behind_range ack b in
    let begin : Acking = record { timers = s.timers; dlq_offsets = []; mutated = false } in
    let kept : (acknowledge member (ack ∷ []) now s).1.batches
        ≡ c
          ∷ d
          ∷ middle_slice member now s.max_delivery_attempts ack.ack_type b ack.first_offset
              ack.last_offset
          ∷ [] =
      rw (only, acked_inverted member now s.max_delivery_attempts ack b begin e l g r)
        (not_passed s.start_offset c _ (lease_not_terminal member b e)) in
    (
      c,
      d,
      rw kept (inl refl),
      rw kept (inr (inl refl)),
      (λ same. let h = ap (λ x. x.first_offset) same in absurd (omega (arith, h))),
      (omega arith, omega arith),
      (omega arith, omega arith),
    )
