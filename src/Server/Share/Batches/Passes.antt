-- ===== src/Server/Share/Batches/Passes.antt =====
-- server/share/partition.rs: the loops over the batches, as one pass over them in order.
use mathlib.Core.List.{append-nil, append_assoc}
use bifrox.Prelude.{
  ℕ, ◌+◌, ◌≤◌, ◌<◌, ◌≡◌, ◌≢◌, ◌∙◌, refl, ap, Bool, true, false, List, [], ◌∷◌, ◌++◌, ==_refl,
  if◌then◌else◌, All, All-append, arith, Bool-cases, inl, inr,
}
use bifrox.Server.Share.Batches.{InFlightBatch, find, remove, keys_where, visit_found, visit}
use bifrox.Server.Share.Batches.Tiling.{
  Tiled, Tiled-lower, Tiled-append, Before, Before-of_Tiled, Before-mono, find-skip, remove-skip,
  insert_all-between,
}

weaken_before :
    {P Q : InFlightBatch → Type 0} (x : ℕ) (bs : List InFlightBatch)
    → ((c : InFlightBatch) → c.first_offset < x → P c → Q c)
    → Before x bs
    → All P bs
    → All Q bs
weaken_before x [] f before h = tt
weaken_before x (b ∷ bs) f (lt, before) (h, hs) = (f b lt h, weaken_before x bs f before hs)

weaken_behind :
    {P Q : InFlightBatch → Type 0} (lo hi : ℕ) (bs : List InFlightBatch)
    → ((c : InFlightBatch) → lo ≤ c.first_offset → P c → Q c)
    → Tiled lo hi bs
    → All P bs
    → All Q bs
weaken_behind lo hi [] f tiled h = tt
weaken_behind lo hi (b ∷ bs) f (l, g, r) (h, hs) =
    (f b l h, weaken_behind (b.last_offset + 1) hi bs (λ c le. f c (omega arith)) r hs)

module _ {S : Type 0} where
  abbrev pub attach : List InFlightBatch × S → (S → List InFlightBatch × S) → List InFlightBatch × S
  attach (pieces, s) rest = (pieces ++ (rest s).0, (rest s).1)

  -- One pass over the batches, which replaces those that pass the test.
  unfoldable pub scan :
      (InFlightBatch → Bool)
      → (InFlightBatch → S → List InFlightBatch × S)
      → List InFlightBatch
      → S
      → List InFlightBatch × S
  scan p f [] s = ([], s)
  scan p f (b ∷ bs) s = attach (if p b then f b s else (b ∷ [], s)) (scan p f bs)

  -- What becomes of a batch lies within its range.
  abbrev pub Divides :
      (InFlightBatch → Bool) → (InFlightBatch → S → List InFlightBatch × S) → Type 0
  Divides p f =
      (b : InFlightBatch) (s : S)
      → b.first_offset ≤ b.last_offset
      → p b ≡ true
      → Tiled b.first_offset (b.last_offset + 1) (f b s).0

  visited :
      (f : InFlightBatch → S → List InFlightBatch × S) (hi : ℕ) (pre bs : List InFlightBatch)
      (b : InFlightBatch) (s : S)
      → Before b.first_offset pre
      → Tiled (b.last_offset + 1) hi bs
      → Tiled b.first_offset (b.last_offset + 1) (f b s).0
      → visit_found f b.first_offset (pre ++ (b ∷ bs), s) (find b.first_offset (pre ++ (b ∷ bs)))
        ≡ ((pre ++ (f b s).0) ++ bs, (f b s).1)
  unfolding find remove
  visited f hi pre bs b s before behind pieces =
      rw (find-skip b.first_offset pre (b ∷ bs) before, ==_refl b.first_offset)
        (rw (remove-skip b.first_offset pre (b ∷ bs) before, ==_refl b.first_offset)
          (rw
            (
              insert_all-between b.first_offset (b.last_offset + 1) hi (f b s).0 pre bs before
                  pieces behind,
              append_assoc pre (f b s).0 bs,
            )
            refl))

  -- The loop over the keys does what the pass does.
  pub visit-scan :
      (p : InFlightBatch → Bool) (f : InFlightBatch → S → List InFlightBatch × S) (lo hi : ℕ)
      (pre bs : List InFlightBatch) (s : S)
      → Divides p f
      → Before lo pre
      → Tiled lo hi bs
      → visit f (keys_where p bs) (pre ++ bs, s) ≡ (pre ++ (scan p f bs s).0, (scan p f bs s).1)
  unfolding visit keys_where scan
  visit-scan p f lo hi pre [] s divides before tiled = refl
  visit-scan p f lo hi pre (b ∷ bs) s divides before (l, g, r) = elim (Bool-cases (p b)) [
    | inl e ↦
        let pieces = divides b s g e in
        let before' = Before-mono lo b.first_offset pre l before in
        rw e (
          ap (visit f (keys_where p bs)) (visited f hi pre bs b s before' r pieces)
          ∙ visit-scan p f (b.last_offset + 1) hi (pre ++ (f b s).0) bs (f b s).1 divides
              (All-append _ pre (f b s).0
                (Before-mono lo (b.last_offset + 1) pre (omega arith) before)
                (Before-of_Tiled b.first_offset (b.last_offset + 1) (f b s).0 pieces))
              r
          ∙ rw (append_assoc pre (f b s).0 (scan p f bs (f b s).1).0) refl)
    | inr e ↦
        rw (e, ← append_assoc pre (b ∷ []) bs)
          (visit-scan p f (b.last_offset + 1) hi (pre ++ (b ∷ [])) bs s divides
              (All-append _ pre (b ∷ [])
                (Before-mono lo (b.last_offset + 1) pre (omega arith) before) (omega arith))
              r
            ∙ rw (append_assoc pre (b ∷ []) (scan p f bs s).0) refl)
  ]

  scan-Tiled :
      (p : InFlightBatch → Bool) (f : InFlightBatch → S → List InFlightBatch × S) (lo hi : ℕ)
      (bs : List InFlightBatch) (s : S)
      → Divides p f
      → Tiled lo hi bs
      → Tiled lo hi (scan p f bs s).0
  unfolding scan
  scan-Tiled p f lo hi [] s divides tiled = tiled
  scan-Tiled p f lo hi (b ∷ bs) s divides (l, g, r) = elim (Bool-cases (p b)) [
    | inl e ↦ rw e (
        Tiled-append lo (b.last_offset + 1) hi (f b s).0 (scan p f bs (f b s).1).0
          (Tiled-lower b.first_offset lo (b.last_offset + 1) (f b s).0 l (divides b s g e))
          (scan-Tiled p f (b.last_offset + 1) hi bs (f b s).1 divides r))
    | inr e ↦ rw e (l, g, scan-Tiled p f (b.last_offset + 1) hi bs s divides r)
  ]

  pub visit-Tiled :
      (p : InFlightBatch → Bool) (f : InFlightBatch → S → List InFlightBatch × S) (lo hi : ℕ)
      (bs : List InFlightBatch) (s : S)
      → Divides p f
      → Tiled lo hi bs
      → Tiled lo hi (visit f (keys_where p bs) (bs, s)).0
  visit-Tiled p f lo hi bs s divides tiled =
      rw (visit-scan p f lo hi [] bs s divides tt tiled) (scan-Tiled p f lo hi bs s divides tiled)

  -- What holds of every batch before the pass, and that each step keeps for the others and makes for
  -- its pieces, holds of every batch after it.
  pub scan-All :
      (p : InFlightBatch → Bool) (f : InFlightBatch → S → List InFlightBatch × S)
      (Q : S → InFlightBatch → Type 0) (lo hi : ℕ) (pre bs : List InFlightBatch) (s : S)
      → Divides p f
      → ((b c : InFlightBatch) (s : S)
          → p b ≡ true
          → c.first_offset ≢ b.first_offset
          → Q s c
          → Q (f b s).1 c)
      → ((b : InFlightBatch) (s : S)
          → b.first_offset ≤ b.last_offset
          → p b ≡ true
          → Q s b
          → All (Q (f b s).1) (f b s).0)
      → Before lo pre
      → Tiled lo hi bs
      → All (Q s) pre
      → All (Q s) bs
      → All (Q (scan p f bs s).1) (pre ++ (scan p f bs s).0)
  unfolding scan
  scan-All p f Q lo hi pre [] s divides keep make before h q qs = rw (append-nil pre) q
  scan-All p f Q lo hi pre (b ∷ bs) s divides keep make before (l, g, r) q (qb, qs) =
      elim (Bool-cases (p b)) [
        | inl e ↦
            let pieces = divides b s g e in
            let pre' = pre ++ (f b s).0 in
            rw (e, ← append_assoc pre (f b s).0 (scan p f bs (f b s).1).0)
              (scan-All p f Q (b.last_offset + 1) hi pre' bs (f b s).1 divides keep make
                (All-append _ pre (f b s).0
                  (Before-mono lo (b.last_offset + 1) pre (omega arith) before)
                  (Before-of_Tiled b.first_offset (b.last_offset + 1) (f b s).0 pieces))
                r
                (All-append _ pre (f b s).0
                  (weaken_before lo pre (λ c lt. keep b c s e (omega arith)) before q)
                  (make b s g e qb))
                (weaken_behind (b.last_offset + 1) hi bs (λ c gt. keep b c s e (omega arith)) r qs))
        | inr e ↦
            rw (e, ← append_assoc pre (b ∷ []) (scan p f bs s).0)
              (scan-All p f Q (b.last_offset + 1) hi (pre ++ (b ∷ [])) bs s divides keep make
                (All-append _ pre (b ∷ [])
                  (Before-mono lo (b.last_offset + 1) pre (omega arith) before) (omega arith))
                r (All-append _ pre (b ∷ []) q (qb, tt)) qs)
      ]

  -- What the pass makes of every batch.
  pub scan-All_made :
      (p : InFlightBatch → Bool) (f : InFlightBatch → S → List InFlightBatch × S)
      (P Q : InFlightBatch → Type 0) (bs : List InFlightBatch) (s : S)
      → ((b : InFlightBatch) (s : S) → p b ≡ true → P b → All Q (f b s).0)
      → ((b : InFlightBatch) → p b ≡ false → P b → Q b)
      → All P bs
      → All Q (scan p f bs s).0
  unfolding scan
  scan-All_made p f P Q [] s make leave h = tt
  scan-All_made p f P Q (b ∷ bs) s make leave (h, hs) = elim (Bool-cases (p b)) [
    | inl e ↦ rw e (
        All-append Q (f b s).0 (scan p f bs (f b s).1).0 (make b s e h)
          (scan-All_made p f P Q bs (f b s).1 make leave hs))
    | inr e ↦ rw e (leave b e h, scan-All_made p f P Q bs s make leave hs)
  ]
