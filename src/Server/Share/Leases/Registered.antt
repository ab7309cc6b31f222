-- ===== src/Server/Share/Leases/Registered.antt =====
-- server/share/partition.rs: the timers that `acquire_records` registers.
use bifrox.Prelude.{ℕ, ◌+◌, sym, subst, inl, inr, List, [], ◌∷◌, Occurs}
use bifrox.Prelude.Text.{Text}
use bifrox.Server.Share.Batches.{InFlightBatch}
use bifrox.Server.Share.Timers.{
  ExpiryTimer, InOrder, insert_timer, Occurs-insert_timer_self, Occurs-insert_timer,
  insert_timer-InOrder,
}
use bifrox.Server.Share.Partition.Acquire.{Acquiring, register_timers}
use bifrox.Server.Share.Leases.{timer_for, Timed}
use bifrox.Server.Share.Leases.Grants.{Covered}

abbrev range_timer : ℕ → Text → ℕ → ℕ → ExpiryTimer
range_timer at member first last = record {
  expire_at = at;
  first_offset = first;
  last_offset = last;
  member_id = member;
}

Occurs-register_timers :
    (u : ExpiryTimer) (at : ℕ) (member : Text) (ranges : List (ℕ × ℕ)) (ts : List ExpiryTimer)
    → Occurs u ts
    → Occurs u (register_timers at member ranges ts)
unfolding register_timers
Occurs-register_timers u at member [] ts m = m
Occurs-register_timers u at member ((first, last) ∷ ranges) ts m =
    Occurs-register_timers u at member ranges _
      (Occurs-insert_timer u (range_timer at member first last) ts m)

register_timers_made :
    (first last at : ℕ) (member : Text) (ranges : List (ℕ × ℕ)) (ts : List ExpiryTimer)
    → Occurs (first, last) ranges
    → Occurs (range_timer at member first last) (register_timers at member ranges ts)
unfolding register_timers
register_timers_made first last at member [] ts m = absurd m
register_timers_made first last at member ((first', last') ∷ ranges) ts (inl e) =
    let t = range_timer at member first' last' in
    Occurs-register_timers (range_timer at member first last) at member ranges (insert_timer t ts) (
      subst (λ r. Occurs (range_timer at member r.0 r.1) (insert_timer t ts)) (sym e)
        (Occurs-insert_timer_self t ts))
register_timers_made first last at member ((first', last') ∷ ranges) ts (inr m) =
    register_timers_made first last at member ranges
      (insert_timer (range_timer at member first' last') ts) m

pub register_timers-InOrder :
    (at : ℕ) (member : Text) (ranges : List (ℕ × ℕ)) (ts : List ExpiryTimer)
    → InOrder ts
    → InOrder (register_timers at member ranges ts)
unfolding register_timers
register_timers-InOrder at member [] ts h = h
register_timers-InOrder at member ((first, last) ∷ ranges) ts h =
    register_timers-InOrder at member ranges _
      (insert_timer-InOrder (range_timer at member first last) ts h)

pub covered-Timed :
    (member : Text) (now timeout : ℕ) (ts : List ExpiryTimer) (a : Acquiring) (b : InFlightBatch)
    → Covered member now timeout ts a b
    → Timed (register_timers (now + timeout) member a.new_acquired_ranges ts) b
covered-Timed member now timeout ts a b (inl t) l =
    let (owner, at, by, since, m) = t l in
    (
      owner,
      at,
      by,
      since,
      Occurs-register_timers (timer_for at owner b) (now + timeout) member a.new_acquired_ranges ts
          m,
    )
covered-Timed member now timeout ts a b (inr (by, since, same, m)) l = (
  member,
  now,
  by,
  since,
  rw same (
      register_timers_made b.first_offset b.last_offset (now + timeout) member a.new_acquired_ranges
        ts m),
)
