-- ===== src/Server/Share/Partition/Cells.antt =====
-- server/share/partition.rs: a share partition as a state for each offset.
use bifrox.Prelude.{
  ℕ, ◌+◌, ◌%◌, ◌^◌, ◌≤◌, ◌<◌, ◌≡◌, refl, sym, ap, Bool, true, false, ◌&&◌, Option, none, some, List,
  [], ◌∷◌, ◌++◌, leb, ◌==◌, if◌then◌else◌, arith, Bool-cases, inl, inr,
}
use bifrox.Prelude.Text.{Text}
use bifrox.Server.Share.Batches.{
  ShareRecordState, InFlightBatch, is_terminal, keys_where, visit, advance,
}
use bifrox.Server.Share.Batches.Tiling.{Tiled, Tiled-bound}
use bifrox.Server.Share.Batches.Passes.{Divides, scan, visit-scan}

-- What a batch says of each of its offsets.
pub record Holding : Type 0 where
  pub state : ShareRecordState
  pub acquired_by : Option Text
  pub acquired_at : Option ℕ
  pub lock_timeout : ℕ
  pub delivery_count : ℕ

abbrev pub holding : InFlightBatch → Holding
holding b = record {
  state = b.state;
  acquired_by = b.acquired_by;
  acquired_at = b.acquired_at;
  lock_timeout = b.lock_timeout;
  delivery_count = b.delivery_count;
}

abbrev pub has : ℕ → InFlightBatch → Bool
has o b = leb b.first_offset o && leb o b.last_offset

unfoldable pub cell : ℕ → List InFlightBatch → Option Holding
cell o [] = none
cell o (b ∷ bs) = if has o b then some (holding b) else cell o bs

abbrev pub changed : (Holding → Holding) → Option Holding → Option Holding
changed g none = none
changed g (some h) = some (g h)

abbrev or_else : Option Holding → Option Holding → Option Holding
or_else none c = c
or_else (some h) c = some h

cell-append :
    (o : ℕ) (xs ys : List InFlightBatch) → cell o (xs ++ ys) ≡ or_else (cell o xs) (cell o ys)
unfolding cell
cell-append o [] ys = refl
cell-append o (x ∷ xs) ys = ground (arith, cell-append o xs ys)

module _ {S : Type 0} where
  -- At the offset, the pieces of a batch say what `g` makes of the batch; a batch that is passed over
  -- says what it said.
  abbrev pub ActsAs :
      (InFlightBatch → Bool)
      → (InFlightBatch → S → List InFlightBatch × S)
      → ℕ
      → (Holding → Holding)
      → Type 0
  ActsAs p f o g =
      (b : InFlightBatch) (s : S)
      → b.first_offset ≤ b.last_offset
      → (p b ≡ true → cell o (f b s).0 ≡ (if has o b then some (g (holding b)) else none))
        × (p b ≡ false → has o b ≡ true → g (holding b) ≡ holding b)

  scan-cell :
      (p : InFlightBatch → Bool) (f : InFlightBatch → S → List InFlightBatch × S) (o lo hi : ℕ)
      (g : Holding → Holding) (bs : List InFlightBatch) (s : S)
      → ActsAs p f o g
      → Tiled lo hi bs
      → cell o (scan p f bs s).0 ≡ changed g (cell o bs)
  unfolding scan cell
  scan-cell p f o lo hi g [] s acts h = refl
  scan-cell p f o lo hi g (b ∷ bs) s acts (l, le, r) = elim (Bool-cases (p b)) [
    | inl e ↦ rw e (
        rw (cell-append o (f b s).0 (scan p f bs (f b s).1).0, (acts b s le).0 e)
          (elim (Bool-cases (has o b)) [
            | inl i ↦ rw i refl
            | inr i ↦ rw i (scan-cell p f o (b.last_offset + 1) hi g bs (f b s).1 acts r)
          ]))
    | inr e ↦ rw e (elim (Bool-cases (has o b)) [
      | inl i ↦ rw i (ap some (sym ((acts b s le).1 e i)))
      | inr i ↦ rw i (scan-cell p f o (b.last_offset + 1) hi g bs s acts r)
    ])
  ]

  pub visit-cell :
      (p : InFlightBatch → Bool) (f : InFlightBatch → S → List InFlightBatch × S) (o lo hi : ℕ)
      (g : Holding → Holding) (bs : List InFlightBatch) (s : S)
      → Divides p f
      → ActsAs p f o g
      → Tiled lo hi bs
      → cell o (visit f (keys_where p bs) (bs, s)).0 ≡ changed g (cell o bs)
  visit-cell p f o lo hi g bs s divides acts h =
      rw (visit-scan p f lo hi [] bs s divides tt h) (scan-cell p f o lo hi g bs s acts h)

-- An offset below a batch is in none of those behind it.
cell_below : (o lo hi : ℕ) (bs : List InFlightBatch) → o < lo → Tiled lo hi bs → cell o bs ≡ none
unfolding cell
cell_below o lo hi [] h t = refl
cell_below o lo hi (b ∷ bs) h (l, g, r) =
    ground (arith, cell_below o (b.last_offset + 1) hi bs (omega arith) r)

pub advance-ge :
    (start hi : ℕ) (bs : List InFlightBatch)
    → hi < 2 ^ 64
    → Tiled start hi bs
    → start ≤ (advance start bs).0
unfolding advance
advance-ge start hi [] small h = omega arith
advance-ge start hi (b ∷ bs) small (l, g, r) =
    let bound = Tiled-bound (b.last_offset + 1) hi bs r in
    let no_wrap : (b.last_offset + 1) % 2 ^ 64 ≡ b.last_offset + 1 = omega arith in
    let ge = advance-ge (b.last_offset + 1) hi bs small r in
    elim (Bool-cases (b.first_offset == start && is_terminal b.state)) [
      | inl e ↦ rw (e, no_wrap) (omega arith)
      | inr e ↦ rw e (omega arith)
    ]

-- The watermark passes resolved offsets only, and the batches behind it stay.
pub advance-cell :
    (o start hi : ℕ) (bs : List InFlightBatch)
    → hi < 2 ^ 64
    → start ≤ o
    → Tiled start hi bs
    → ((advance start bs).0 ≤ o → cell o (advance start bs).1 ≡ cell o bs)
      × (o < (advance start bs).0
          → (h : Holding) × (cell o bs ≡ some h) × (is_terminal h.state ≡ true))
unfolding advance cell
advance-cell o start hi [] small le h = ((λ _. refl), (λ lt. absurd (omega arith)))
advance-cell o start hi (b ∷ bs) small le (l, g, r) =
    let bound = Tiled-bound (b.last_offset + 1) hi bs r in
    let no_wrap : (b.last_offset + 1) % 2 ^ 64 ≡ b.last_offset + 1 = omega arith in
    elim (Bool-cases (b.first_offset == start && is_terminal b.state)) [
      | inl e ↦ elim (Bool-cases (has o b)) [
        | inl i ↦
            let inner : o ≤ b.last_offset = ground arith in
            let ge = advance-ge (b.last_offset + 1) hi bs small r in
            let resolved : is_terminal b.state ≡ true = ground arith in
            rw (e, no_wrap, i) ((λ le'. absurd (omega arith)), (λ lt. (holding b, refl, resolved)))
        | inr i ↦
            let behind : b.last_offset + 1 ≤ o = ground arith in
            rw (e, no_wrap, i) (advance-cell o (b.last_offset + 1) hi bs small behind r)
      ]
      | inr e ↦ rw e ((λ _. refl), (λ lt. absurd (omega arith)))
    ]
