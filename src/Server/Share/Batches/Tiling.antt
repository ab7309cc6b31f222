-- ===== src/Server/Share/Batches/Tiling.antt =====
-- server/share/partition.rs: batches that lie one behind the other.
use mathlib.Core.List.{append-nil, append_assoc}
use bifrox.Prelude.{
  ℕ, ◌+◌, ◌≤◌, ◌<◌, ◌≡◌, ◌∙◌, refl, subst, List, [], ◌∷◌, ◌++◌, All, All-append, arith,
}
use bifrox.Server.Share.Batches.{InFlightBatch, find, insert, remove, insert_all}

-- The batches lie in order within `lo` and below `hi`, and no two of them share an offset.
abbrev pub Tiled : ℕ → ℕ → List InFlightBatch → Type 0
Tiled lo hi [] = lo ≤ hi
Tiled lo hi (b ∷ bs) =
    (lo ≤ b.first_offset) × (b.first_offset ≤ b.last_offset) × Tiled (b.last_offset + 1) hi bs

pub Tiled-bound : (lo hi : ℕ) (bs : List InFlightBatch) → Tiled lo hi bs → lo ≤ hi
Tiled-bound lo hi [] h = h
Tiled-bound lo hi (b ∷ bs) (l, f, r) = omega (arith, Tiled-bound (b.last_offset + 1) hi bs r)

pub Tiled-lower :
    (lo lo' hi : ℕ) (bs : List InFlightBatch) → lo' ≤ lo → Tiled lo hi bs → Tiled lo' hi bs
Tiled-lower lo lo' hi [] le h = omega arith
Tiled-lower lo lo' hi (b ∷ bs) le (l, f, r) = (omega arith, f, r)

pub Tiled-raise :
    (lo hi hi' : ℕ) (bs : List InFlightBatch) → hi ≤ hi' → Tiled lo hi bs → Tiled lo hi' bs
Tiled-raise lo hi hi' [] le h = omega arith
Tiled-raise lo hi hi' (b ∷ bs) le (l, f, r) = (l, f, Tiled-raise (b.last_offset + 1) hi hi' bs le r)

pub Tiled-append :
    (lo mid hi : ℕ) (xs ys : List InFlightBatch)
    → Tiled lo mid xs
    → Tiled mid hi ys
    → Tiled lo hi (xs ++ ys)
Tiled-append lo mid hi [] ys h k = Tiled-lower mid lo hi ys h k
Tiled-append lo mid hi (x ∷ xs) ys (l, f, r) k =
    (l, f, Tiled-append (x.last_offset + 1) mid hi xs ys r k)

-- Every batch begins before the offset.
abbrev pub Before : ℕ → List InFlightBatch → Type 0
Before x bs = All (λ b. b.first_offset < x) bs

pub Before-of_Tiled : (lo hi : ℕ) (bs : List InFlightBatch) → Tiled lo hi bs → Before hi bs
Before-of_Tiled lo hi [] h = tt
Before-of_Tiled lo hi (b ∷ bs) (l, f, r) = (
  omega (arith, Tiled-bound (b.last_offset + 1) hi bs r),
  Before-of_Tiled (b.last_offset + 1) hi bs r,
)

pub Before-mono : (x y : ℕ) (bs : List InFlightBatch) → x ≤ y → Before x bs → Before y bs
Before-mono x y [] le h = tt
Before-mono x y (b ∷ bs) le (h, hs) = (omega arith, Before-mono x y bs le hs)

pub find-skip :
    (key : ℕ) (pre bs : List InFlightBatch) → Before key pre → find key (pre ++ bs) ≡ find key bs
unfolding find
find-skip key [] bs h = refl
find-skip key (c ∷ pre) bs (h, hs) = ground (arith, find-skip key pre bs hs)

pub remove-skip :
    (key : ℕ) (pre bs : List InFlightBatch)
    → Before key pre
    → remove key (pre ++ bs) ≡ pre ++ remove key bs
unfolding remove
remove-skip key [] bs h = refl
remove-skip key (c ∷ pre) bs (h, hs) = ground (arith, remove-skip key pre bs hs)

insert-skip :
    (b : InFlightBatch) (pre bs : List InFlightBatch)
    → Before b.first_offset pre
    → insert b (pre ++ bs) ≡ pre ++ insert b bs
unfolding insert
insert-skip b [] bs h = refl
insert-skip b (c ∷ pre) bs (h, hs) = ground (arith, insert-skip b pre bs hs)

-- An insertion behind everything goes to the end.
pub insert-behind :
    (b : InFlightBatch) (lo hi : ℕ) (bs : List InFlightBatch)
    → Tiled lo hi bs
    → hi ≤ b.first_offset
    → insert b bs ≡ bs ++ (b ∷ [])
unfolding insert
insert-behind b lo hi bs h le =
    subst (λ l. insert b l ≡ bs ++ (b ∷ [])) (append-nil bs)
      (insert-skip b bs [] (Before-mono hi b.first_offset bs le (Before-of_Tiled lo hi bs h)))

-- An insertion below everything goes to the front.
insert-front :
    (b : InFlightBatch) (hi : ℕ) (bs : List InFlightBatch)
    → Tiled (b.first_offset + 1) hi bs
    → insert b bs ≡ b ∷ bs
unfolding insert
insert-front b hi [] h = refl
insert-front b hi (c ∷ bs) (l, f, r) = ground arith

-- Pieces in order, put between what begins before them and what lies behind them.
pub insert_all-between :
    (lo mid hi : ℕ) (ps pre bs : List InFlightBatch)
    → Before lo pre
    → Tiled lo mid ps
    → Tiled mid hi bs
    → insert_all ps (pre ++ bs) ≡ pre ++ (ps ++ bs)
unfolding insert_all
insert_all-between lo mid hi [] pre bs before ps behind = refl
insert_all-between lo mid hi (p ∷ ps) pre bs before (l, f, r) behind =
    let bound = Tiled-bound (p.last_offset + 1) mid ps r in
    let front : insert p bs ≡ p ∷ bs =
      insert-front p hi bs (Tiled-lower mid (p.first_offset + 1) hi bs (omega arith) behind) in
    rw
      (
        insert-skip p pre bs (Before-mono lo p.first_offset pre l before),
        front,
        ← append_assoc pre (p ∷ []) bs,
      )
      (insert_all-between (p.last_offset + 1) mid hi ps (pre ++ (p ∷ [])) bs
          (All-append _ pre (p ∷ []) (Before-mono lo (p.last_offset + 1) pre (omega arith) before)
            (omega arith))
          r behind
        ∙ append_assoc pre (p ∷ []) (ps ++ bs))
