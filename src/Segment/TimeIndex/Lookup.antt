-- ===== src/Segment/TimeIndex/Lookup.antt =====
-- What the time index finds for a timestamp.
use bifrox.Prelude.{
  ℕ, zero, suc, ◌≤◌, ◌<◌, ◌≡◌, ◌⊎◌, inl, inr, refl, Option, none, some, List, [], get_elem?, arith,
}
use bifrox.Segment.Search.{
  Search, Found, found, missing, Answers, SearchesOrdered, Ascends-get, get_elem?-map,
  get_elem?-within, length-map, le_or_lt, within_of_get,
}
use bifrox.Segment.TimeIndex.{TimeIndexEntry, open_file, nearest, find_offset_for_timestamp}
use bifrox.Segment.TimeIndex.Order.{stamps, Operation, apply_all, IsOrdered, apply_all-IsOrdered}

-- No offset: every stamp is beyond the target. An offset: it is that of an entry stamped at or before
-- the target, and no other stamp lies between the two.
abbrev pub IsAnswer : ℕ → List TimeIndexEntry → Option ℕ → Type 0
IsAnswer x es none = (j : ℕ) (e : TimeIndexEntry) → get_elem? es j ≡ some e → x < e.timestamp
IsAnswer x es (some o) =
    (i : ℕ) × (e : TimeIndexEntry) × (get_elem? es i ≡ some e)
    × (e.logical_offset ≡ o)
    × (e.timestamp ≤ x)
    × ((j : ℕ) (e' : TimeIndexEntry)
        → get_elem? es j ≡ some e'
        → (e'.timestamp ≤ e.timestamp) ⊎ (x < e'.timestamp))

stamp_at :
    (es : List TimeIndexEntry) (i : ℕ) (e : TimeIndexEntry)
    → get_elem? es i ≡ some e
    → get_elem? (stamps es) i ≡ some e.timestamp
stamp_at es i e h = get_elem?-map (λ a. a.timestamp) es i e h

nearest-IsAnswer :
    (f : Found) (es : List TimeIndexEntry) (x : ℕ)
    → Answers (stamps es) x f
    → IsOrdered es
    → IsAnswer x es (nearest f es)
unfolding nearest
nearest-IsAnswer (found i) es x at_i sorted =
    let inside = within_of_get (stamps es) i x at_i in
    let (e, h) = get_elem?-within es i (omega (arith, inside, length-map (λ a. a.timestamp) es)) in
    let same : e.timestamp ≡ x = cc (at_i, stamp_at es i e h) in
    rw h (
      i,
      e,
      h,
      refl,
      omega arith,
      (λ j e' h'. elim (le_or_lt e'.timestamp x) [ inl le ↦ inl (omega arith) | inr gt ↦ inr gt ]),
    )
nearest-IsAnswer (missing zero) es x (inside, below, above) sorted =
    λ j e h. above j e.timestamp (stamp_at es j e h) (omega arith)
nearest-IsAnswer (missing (suc i)) es x (inside, below, above) sorted =
    let (e, h) = get_elem?-within es i (omega (arith, inside, length-map (λ a. a.timestamp) es)) in
    let at_i = stamp_at es i e h in
    rw h (
      i,
      e,
      h,
      refl,
      omega (arith, below i e.timestamp at_i (omega arith)),
      (λ j e' h'.
          let at_j = stamp_at es j e' h' in
          elim (le_or_lt j i) [
            | inl le ↦
                inl (Ascends-get (stamps es) j i e'.timestamp e.timestamp sorted le at_j at_i)
            | inr gt ↦ inr (above j e'.timestamp at_j (omega arith))
          ]),
    )

-- After any sequence of appends and truncations on an empty file, in any order of timestamps and
-- with failing writes, a lookup answers: no offset if every stamp is beyond the target, else the
-- offset of an entry stamped at or before it with no stamp between. The binary search is any that
-- keeps to its documentation.
pub find_offset_for_timestamp-IsAnswer :
    (search : Search) (ops : List Operation) (base target : ℕ)
    → SearchesOrdered search
    → let s = apply_all ops (open_file [] base) in
      IsAnswer target s.entries (find_offset_for_timestamp search target s)
unfolding find_offset_for_timestamp open_file bifrox.Segment.IndexFile.decode_all
find_offset_for_timestamp-IsAnswer search ops base target law =
    let s = apply_all ops (open_file [] base) in
    let sorted = apply_all-IsOrdered ops (open_file [] base) tt in
    nearest-IsAnswer (search (stamps s.entries) target) s.entries target
      (law (stamps s.entries) target sorted) sorted
