-- ===== src/Segment/TxnIndex/Aborted.antt =====
-- Which offsets the aborted-transaction index reports.
use bifrox.Prelude.{
  ℕ, ◌<◌, ◌≡◌, refl, ap, Bool, true, false, ◌&&◌, ◌||◌, List, [], ◌∷◌, ltb, leb, any, retain,
  keep_if, any-append, arith,
}
use bifrox.Segment.IndexFile.{completes, write_all, done, rewrite}
use bifrox.Segment.TxnIndex.{TxnIndexEntry, TxnIndexSegment, append, is_aborted, truncate_after}

abbrev covers : ℕ → TxnIndexEntry → Bool
covers offset e = leb e.first_offset offset && leb offset e.last_offset

beyond :
    (o cut : ℕ) (e : TxnIndexEntry) → o < cut → ltb e.first_offset cut ≡ false → covers o e ≡ false
beyond o cut e h far = ground arith

any-retain :
    (o cut : ℕ) (es : List TxnIndexEntry)
    → o < cut
    → any (covers o) (retain (λ e. ltb e.first_offset cut) es) ≡ any (covers o) es
any-retain o cut [] h = refl
any-retain o cut (e ∷ es) h = go (ltb e.first_offset cut) refl (any-retain o cut es h)
  where
    go :
        (b : Bool)
        → ltb e.first_offset cut ≡ b
        → any (covers o) (retain (λ e'. ltb e'.first_offset cut) es) ≡ any (covers o) es
        → any (covers o) (keep_if b e (retain (λ e'. ltb e'.first_offset cut) es))
          ≡ (covers o e || any (covers o) es)
    go true x ih = ap (λ b. covers o e || b) ih
    go false x ih = rw (beyond o cut e h x) ih

-- An appended range is reported from then on, whole and besides what was reported before; and a
-- truncation at an offset changes no answer for a smaller one. The writes succeed.
pub is_aborted-append :
    (producer_id first_offset last_offset cut : ℕ) (s : TxnIndexSegment)
    → ((o : ℕ)
        → is_aborted o (append completes true producer_id first_offset last_offset s).1
          ≡ (is_aborted o s || (leb first_offset o && leb o last_offset)))
      × ((o : ℕ) → o < cut → is_aborted o (truncate_after done cut s).1 ≡ is_aborted o s)
unfolding is_aborted append truncate_after write_all rewrite
is_aborted-append producer_id first_offset last_offset cut s =
    let e : TxnIndexEntry = record {
      producer_id = producer_id;
      first_offset = first_offset;
      last_offset = last_offset;
    } in
    (
      (λ o. rw (any-append (covers o) s.entries (e ∷ [])) (ground arith)),
      (λ o h. any-retain o cut s.entries h),
    )
