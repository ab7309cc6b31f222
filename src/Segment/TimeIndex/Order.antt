-- ===== src/Segment/TimeIndex/Order.antt =====
-- The time index stays in order.
use bifrox.Prelude.{
  ℕ, zero, suc, ◌≤◌, Bool, true, false, List, [], ◌∷◌, ◌++◌, All, take, retain, keep_if, map, arith,
}
use bifrox.Segment.IndexFile.{
  Written, completes, fails_after, write_all, Rewritten, done, fails_to_cut, fails_to_seek,
  fails_to_sync, fails_writing, rewrite,
}
use bifrox.Segment.Search.{Ascends}
use bifrox.Segment.TimeIndex.{
  TimeIndexEntry, TimeIndexSegment, monotonic_timestamp, append, truncate_after,
}

abbrev pub stamps : List TimeIndexEntry → List ℕ
stamps = map (λ e. e.timestamp)

pub data Operation : Type 0 where
  appends : Written → ℕ → ℕ → Operation
  truncates : Rewritten → ℕ → Operation

unfoldable pub apply : Operation → TimeIndexSegment → TimeIndexSegment
apply (appends w timestamp offset) s = (append w timestamp offset s).1
apply (truncates w offset) s = (truncate_after w offset s).1

unfoldable pub apply_all : List Operation → TimeIndexSegment → TimeIndexSegment
apply_all [] s = s
apply_all (op ∷ ops) s = apply_all ops (apply op s)

abbrev pub IsOrdered : List TimeIndexEntry → Type 0
IsOrdered es = Ascends (stamps es)

-- Every stamp is at least `x`.
abbrev From : ℕ → List TimeIndexEntry → Type 0
From x es = All (λ y. x ≤ y) (stamps es)

From-retain :
    (x : ℕ) (p : TimeIndexEntry → Bool) (es : List TimeIndexEntry)
    → From x es
    → From x (retain p es)
From-retain x p [] h = h
From-retain x p (e ∷ es) (h, hs) = go (p e) (From-retain x p es hs)
  where
    go : (b : Bool) → From x (retain p es) → From x (keep_if b e (retain p es))
    go true r = (h, r)
    go false r = r

IsOrdered-retain :
    (p : TimeIndexEntry → Bool) (es : List TimeIndexEntry) → IsOrdered es → IsOrdered (retain p es)
IsOrdered-retain p [] h = h
IsOrdered-retain p (e ∷ es) (h, hs) =
    go (p e) (From-retain e.timestamp p es h) (IsOrdered-retain p es hs)
  where
    go :
        (b : Bool)
        → From e.timestamp (retain p es)
        → IsOrdered (retain p es)
        → IsOrdered (keep_if b e (retain p es))
    go true f r = (f, r)
    go false f r = r

From-take : (x k : ℕ) (es : List TimeIndexEntry) → From x es → From x (take k es)
From-take x zero es h = tt
From-take x (suc k) [] h = tt
From-take x (suc k) (e ∷ es) (h, hs) = (h, From-take x k es hs)

IsOrdered-take : (k : ℕ) (es : List TimeIndexEntry) → IsOrdered es → IsOrdered (take k es)
IsOrdered-take zero es h = tt
IsOrdered-take (suc k) [] h = tt
IsOrdered-take (suc k) (e ∷ es) (h, hs) = (From-take e.timestamp k es h, IsOrdered-take k es hs)

From-monotonic :
    (x timestamp o : ℕ) (e : TimeIndexEntry) (es : List TimeIndexEntry)
    → x ≤ e.timestamp
    → From x es
    → From x (
        (e ∷ es)
        ++ (record { timestamp = monotonic_timestamp timestamp (e ∷ es); logical_offset = o } ∷ []))
unfolding monotonic_timestamp
From-monotonic x timestamp o e [] h hs = (h, (omega arith, tt))
From-monotonic x timestamp o e (e' ∷ es) h (h', hs) = (h, From-monotonic x timestamp o e' es h' hs)

IsOrdered-monotonic :
    (timestamp o : ℕ) (es : List TimeIndexEntry)
    → IsOrdered es
    → IsOrdered
        (es ++ (record { timestamp = monotonic_timestamp timestamp es; logical_offset = o } ∷ []))
unfolding monotonic_timestamp
IsOrdered-monotonic timestamp o [] h = (tt, tt)
IsOrdered-monotonic timestamp o (e ∷ []) h = ((omega arith, tt), (tt, tt))
IsOrdered-monotonic timestamp o (e ∷ e' ∷ es) ((h, hs), r) =
    (From-monotonic e.timestamp timestamp o e' es h hs, IsOrdered-monotonic timestamp o (e' ∷ es) r)

apply-IsOrdered :
    (op : Operation) (s : TimeIndexSegment) → IsOrdered s.entries → IsOrdered (apply op s).entries
unfolding apply append write_all truncate_after rewrite
apply-IsOrdered (appends completes t o) s h = IsOrdered-monotonic t o s.entries h
apply-IsOrdered (appends (fails_after k) t o) s h = h
apply-IsOrdered (truncates done cut) s h = IsOrdered-retain _ s.entries h
apply-IsOrdered (truncates fails_to_cut cut) s h = h
apply-IsOrdered (truncates fails_to_seek cut) s h = h
apply-IsOrdered (truncates fails_to_sync cut) s h = IsOrdered-retain _ s.entries h
apply-IsOrdered (truncates (fails_writing k) cut) s h =
    IsOrdered-take _ _ (IsOrdered-retain _ s.entries h)

pub apply_all-IsOrdered :
    (ops : List Operation) (s : TimeIndexSegment)
    → IsOrdered s.entries
    → IsOrdered (apply_all ops s).entries
unfolding apply_all
apply_all-IsOrdered [] s h = h
apply_all-IsOrdered (op ∷ ops) s h = apply_all-IsOrdered ops (apply op s) (apply-IsOrdered op s h)
