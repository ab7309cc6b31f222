-- ===== src/Server/Share/Timers.antt =====
-- server/share/partition.rs: the set of lock-expiry timers, in the order of `ExpiryTimer::cmp`.
use bifrox.Prelude.{ℕ, ◌≤◌, ◌≡◌, ◌≢◌, refl, ◌∙◌, List, [], ◌∷◌, All, Occurs, inl, inr, sym, arith}
use Prim.Native.Nat.{compare, Ordering}
use bifrox.Prelude.Text.{Text}

pub record ExpiryTimer : Type 0 where
  pub expire_at : ℕ
  pub first_offset : ℕ
  pub last_offset : ℕ
  pub member_id : Text

abbrev pub then_with : Ordering → Ordering → Ordering
then_with Ordering.lt o = Ordering.lt
then_with Ordering.eq o = o
then_with Ordering.gt o = Ordering.gt

unfoldable pub compare_texts : Text → Text → Ordering
compare_texts [] [] = Ordering.eq
compare_texts [] (b ∷ t) = Ordering.lt
compare_texts (a ∷ s) [] = Ordering.gt
compare_texts (a ∷ s) (b ∷ t) = then_with (compare a b) (compare_texts s t)

unfoldable pub compare_timers : ExpiryTimer → ExpiryTimer → Ordering
compare_timers t u = then_with (compare t.expire_at u.expire_at) (
    then_with (compare t.first_offset u.first_offset)
      (then_with (compare t.last_offset u.last_offset) (compare_texts t.member_id u.member_id)))

abbrev pub place :
    ExpiryTimer → ExpiryTimer → List ExpiryTimer → List ExpiryTimer → Ordering → List ExpiryTimer
place t u us rest Ordering.lt = t ∷ u ∷ us
place t u us rest Ordering.eq = u ∷ us
place t u us rest Ordering.gt = u ∷ rest

unfoldable pub insert_timer : ExpiryTimer → List ExpiryTimer → List ExpiryTimer
insert_timer t [] = t ∷ []
insert_timer t (u ∷ us) = place t u us (insert_timer t us) (compare_timers t u)

abbrev pub displace :
    ExpiryTimer → List ExpiryTimer → List ExpiryTimer → Ordering → List ExpiryTimer
displace u us rest Ordering.eq = us
displace u us rest _ = u ∷ rest

unfoldable pub remove_timer : ExpiryTimer → List ExpiryTimer → List ExpiryTimer
remove_timer t [] = []
remove_timer t (u ∷ us) = displace u us (remove_timer t us) (compare_timers t u)

compare_texts_equal : (s t : Text) → compare_texts s t ≡ Ordering.eq → s ≡ t
unfolding compare_texts
compare_texts_equal [] [] h = refl
compare_texts_equal [] (b ∷ t) h = cc h
compare_texts_equal (a ∷ s) [] h = cc h
compare_texts_equal (a ∷ s) (b ∷ t) h = ground (arith, compare_texts_equal s t)

compare_timers_equal : (t u : ExpiryTimer) → compare_timers t u ≡ Ordering.eq → t ≡ u
unfolding compare_timers
compare_timers_equal t u h = ground (arith, compare_texts_equal t.member_id u.member_id)

pub Occurs-insert_timer_self :
    (t : ExpiryTimer) (us : List ExpiryTimer) → Occurs t (insert_timer t us)
unfolding insert_timer
Occurs-insert_timer_self t [] = inl refl
Occurs-insert_timer_self t (u ∷ us) = go (compare_timers t u) refl (Occurs-insert_timer_self t us)
  where
    go :
        (o : Ordering)
        → compare_timers t u ≡ o
        → Occurs t (insert_timer t us)
        → Occurs t (place t u us (insert_timer t us) o)
    go Ordering.lt e h = inl refl
    go Ordering.eq e h = inl (compare_timers_equal t u e)
    go Ordering.gt e h = inr h

pub Occurs-insert_timer :
    (v t : ExpiryTimer) (us : List ExpiryTimer) → Occurs v us → Occurs v (insert_timer t us)
unfolding insert_timer
Occurs-insert_timer v t [] m = absurd m
Occurs-insert_timer v t (u ∷ us) m = go (compare_timers t u) m (Occurs-insert_timer v t us)
  where
    go :
        (o : Ordering)
        → Occurs v (u ∷ us)
        → (Occurs v us → Occurs v (insert_timer t us))
        → Occurs v (place t u us (insert_timer t us) o)
    go Ordering.lt m ih = inr m
    go Ordering.eq m ih = m
    go Ordering.gt (inl e) ih = inl e
    go Ordering.gt (inr m) ih = inr (ih m)

pub Occurs-remove_timer :
    (v t : ExpiryTimer) (us : List ExpiryTimer) → t ≢ v → Occurs v us → Occurs v (remove_timer t us)
unfolding remove_timer
Occurs-remove_timer v t [] differ m = absurd m
Occurs-remove_timer v t (u ∷ us) differ m =
    go (compare_timers t u) refl m (Occurs-remove_timer v t us differ)
  where
    go :
        (o : Ordering)
        → compare_timers t u ≡ o
        → Occurs v (u ∷ us)
        → (Occurs v us → Occurs v (remove_timer t us))
        → Occurs v (displace u us (remove_timer t us) o)
    go Ordering.eq e (inl same) ih = absurd (differ (compare_timers_equal t u e ∙ sym same))
    go Ordering.eq e (inr m) ih = m
    go Ordering.lt e (inl same) ih = inl same
    go Ordering.lt e (inr m) ih = inr (ih m)
    go Ordering.gt e (inl same) ih = inl same
    go Ordering.gt e (inr m) ih = inr (ih m)

-- No timer expires before the ones ahead of it.
abbrev pub InOrder : List ExpiryTimer → Type 0
InOrder [] = Unit
InOrder (t ∷ ts) = All (λ u. t.expire_at ≤ u.expire_at) ts × InOrder ts

compare_timers_lt :
    (t u : ExpiryTimer) → compare_timers t u ≡ Ordering.lt → t.expire_at ≤ u.expire_at
unfolding compare_timers
compare_timers_lt t u h = ground arith

compare_timers_gt :
    (t u : ExpiryTimer) → compare_timers t u ≡ Ordering.gt → u.expire_at ≤ t.expire_at
unfolding compare_timers
compare_timers_gt t u h = ground arith

All-insert_timer :
    (P : ExpiryTimer → Type 0) (t : ExpiryTimer) (us : List ExpiryTimer)
    → P t
    → All P us
    → All P (insert_timer t us)
unfolding insert_timer
All-insert_timer P t [] p h = (p, tt)
All-insert_timer P t (u ∷ us) p (h, hs) = go (compare_timers t u) (All-insert_timer P t us p hs)
  where
    go : (o : Ordering) → All P (insert_timer t us) → All P (place t u us (insert_timer t us) o)
    go Ordering.lt r = (p, (h, hs))
    go Ordering.eq r = (h, hs)
    go Ordering.gt r = (h, r)

All-remove_timer :
    (P : ExpiryTimer → Type 0) (t : ExpiryTimer) (us : List ExpiryTimer)
    → All P us
    → All P (remove_timer t us)
unfolding remove_timer
All-remove_timer P t [] h = h
All-remove_timer P t (u ∷ us) (h, hs) = go (compare_timers t u) (All-remove_timer P t us hs)
  where
    go : (o : Ordering) → All P (remove_timer t us) → All P (displace u us (remove_timer t us) o)
    go Ordering.eq r = hs
    go Ordering.lt r = (h, r)
    go Ordering.gt r = (h, r)

All_later :
    (x y : ℕ) (us : List ExpiryTimer)
    → x ≤ y
    → All (λ u. y ≤ u.expire_at) us
    → All (λ u. x ≤ u.expire_at) us
All_later x y [] le h = tt
All_later x y (u ∷ us) le (h, hs) = (omega arith, All_later x y us le hs)

pub insert_timer-InOrder :
    (t : ExpiryTimer) (us : List ExpiryTimer) → InOrder us → InOrder (insert_timer t us)
unfolding insert_timer
insert_timer-InOrder t [] h = (tt, tt)
insert_timer-InOrder t (u ∷ us) (h, hs) =
    go (compare_timers t u) refl (insert_timer-InOrder t us hs)
  where
    go :
        (o : Ordering)
        → compare_timers t u ≡ o
        → InOrder (insert_timer t us)
        → InOrder (place t u us (insert_timer t us) o)
    go Ordering.lt e r =
        let le = compare_timers_lt t u e in
        ((le, All_later t.expire_at u.expire_at us le h), (h, hs))
    go Ordering.eq e r = (h, hs)
    go Ordering.gt e r =
        (All-insert_timer (λ v. u.expire_at ≤ v.expire_at) t us (compare_timers_gt t u e) h, r)

pub remove_timer-InOrder :
    (t : ExpiryTimer) (us : List ExpiryTimer) → InOrder us → InOrder (remove_timer t us)
unfolding remove_timer
remove_timer-InOrder t [] h = tt
remove_timer-InOrder t (u ∷ us) (h, hs) = go (compare_timers t u) (remove_timer-InOrder t us hs)
  where
    go :
        (o : Ordering) → InOrder (remove_timer t us) → InOrder (displace u us (remove_timer t us) o)
    go Ordering.eq r = hs
    go Ordering.lt r = (All-remove_timer (λ v. u.expire_at ≤ v.expire_at) t us h, r)
    go Ordering.gt r = (All-remove_timer (λ v. u.expire_at ≤ v.expire_at) t us h, r)
