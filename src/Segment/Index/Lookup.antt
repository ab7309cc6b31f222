-- ===== src/Segment/Index/Lookup.antt =====
-- What the offset index finds for a target, and what a truncation keeps.
use bifrox.Prelude.{
  ℕ, zero, suc, ◌-◌, ◌%◌, ◌^◌, ◌≤◌, ◌<◌, ◌≡◌, refl, ◌⊎◌, inl, inr, subst, some, List, length,
  get_elem?, map, arith,
}
use bifrox.Segment.Search.{
  Search, Found, found, missing, Ascends, Answers, SearchesOrdered, Ascends-get, get_elem?-map,
  get_elem?-within, length-map, le_or_lt, within_of_get,
}
use bifrox.Segment.Index.{IndexEntry, IndexSegment, relative, nearest, find_nearest_physical_pos}

abbrev pub offsets : List IndexEntry → List ℕ
offsets = map (λ e. e.relative_offset)

-- `e` is an entry, and none lies strictly between it and the target. It is not beyond the target,
-- unless it is the first entry and every entry is.
abbrev pub IsNearest : ℕ → IndexEntry → List IndexEntry → Type 0
IsNearest x e es =
    (i : ℕ) × (get_elem? es i ≡ some e)
    × ((j : ℕ) (e' : IndexEntry)
        → get_elem? es j ≡ some e'
        → (e'.relative_offset ≤ e.relative_offset) ⊎ (x < e'.relative_offset))
    × ((e.relative_offset ≤ x)
        ⊎ ((i ≡ 0)
            × ((j : ℕ) (e' : IndexEntry) → get_elem? es j ≡ some e' → x < e'.relative_offset)))

nearest-IsNearest :
    (f : Found) (es : List IndexEntry) (x : ℕ)
    → Answers (offsets es) x f
    → Ascends (offsets es)
    → 0 < length es
    → (e : IndexEntry) × (nearest f es ≡ some e) × IsNearest x e es
unfolding nearest
nearest-IsNearest (found i) es x at_i sorted some_entry =
    let inside = within_of_get (offsets es) i x at_i in
    let (e, h) =
      get_elem?-within es i (omega (arith, inside, length-map (λ e. e.relative_offset) es)) in
    let same : e.relative_offset ≡ x = cc (at_i, get_elem?-map (λ e. e.relative_offset) es i e h) in
    (
      e,
      h,
      (
        i,
        h,
        (λ j e' h'. elim (le_or_lt e'.relative_offset x) [
          | inl le ↦ inl (omega arith)
          | inr gt ↦ inr gt
        ]),
        inl (omega arith),
      ),
    )
nearest-IsNearest (missing zero) es x (inside, below, above) sorted some_entry =
    let (e, h) = get_elem?-within es 0 some_entry in
    let all_above : (j : ℕ) (e' : IndexEntry) → get_elem? es j ≡ some e' → x < e'.relative_offset =
      λ j e' h'.
        above j e'.relative_offset (get_elem?-map (λ e. e.relative_offset) es j e' h')
          (omega arith) in
    (e, h, (0, h, (λ j e' h'. inr (all_above j e' h')), inr (refl, all_above)))
nearest-IsNearest (missing (suc i)) es x (inside, below, above) sorted some_entry =
    let (e, h) =
      get_elem?-within es i (omega (arith, inside, length-map (λ e. e.relative_offset) es)) in
    let at_i = get_elem?-map (λ e. e.relative_offset) es i e h in
    (
      e,
      h,
      (
        i,
        h,
        (λ j e' h'.
            let at_j = get_elem?-map (λ e. e.relative_offset) es j e' h' in
            elim (le_or_lt j i) [
              | inl le ↦ inl (
                  Ascends-get (offsets es) j i e'.relative_offset e.relative_offset sorted le at_j
                    at_i)
              | inr gt ↦ inr (above j e'.relative_offset at_j (omega arith))
            ]),
        inl (omega (arith, below i e.relative_offset at_i (omega arith))),
      ),
    )

-- In an index that is not empty and does not descend, for a target less than 2^32 beyond the
-- base offset, the lookup returns an entry of the index: the nearest at or before the target, or
-- the first one where every entry is beyond it. The binary search is any that keeps to its
-- documentation.
pub find_nearest_physical_pos-IsNearest :
    (search : Search) (target : ℕ) (s : IndexSegment)
    → SearchesOrdered search
    → Ascends (offsets s.entries)
    → 0 < length s.entries
    → target - s.base_offset < 2 ^ 32
    → (e : IndexEntry) × (find_nearest_physical_pos search target s ≡ some e)
      × IsNearest (target - s.base_offset) e s.entries
unfolding find_nearest_physical_pos relative
find_nearest_physical_pos-IsNearest search target s law sorted some_entry small =
    let x = (target - s.base_offset) % 2 ^ 32 in
    let same : x ≡ target - s.base_offset = omega arith in
    let (e, h, n) =
      nearest-IsNearest (search (offsets s.entries) x) s.entries x
        (law (offsets s.entries) x sorted) sorted some_entry in
    (e, h, subst (λ y. IsNearest y e s.entries) same n)
