-- ===== src/Prelude/Table.antt =====
-- A map as an association list with at most one entry a key. `DashMap`, `HashMap` and `BTreeMap` of
-- the code are such maps where their iteration order does not matter.
use mathlib.Core.Path.{◌≡◌, refl}
use mathlib.Core.Option.{Option, none, some}
use mathlib.Core.List.{List, [], ◌∷◌}
use native.Mathlib.Omega.{arith}
use bifrox.Prelude.Tests.{Key, if◌then◌else◌}

abbrev pub Table : Type 0 → Type 0 → Type 0
Table K V = List (K × V)

module _ {K V : Type 0} ⦃k : Key K⦄ where
  unfoldable pub get : K → Table K V → Option V
  get a [] = none
  get a ((b, v) ∷ m) = if k.same b a then some v else get a m

  unfoldable pub remove : K → Table K V → Table K V
  remove a [] = []
  remove a ((b, v) ∷ m) = let rest = remove a m in if k.same b a then rest else (b, v) ∷ rest

  unfoldable pub insert : K → V → Table K V → Table K V
  insert a v [] = (a, v) ∷ []
  insert a v ((b, w) ∷ m) =
      let rest = insert a v m in if k.same b a then (a, v) ∷ m else (b, w) ∷ rest

  pub get-insert :
      (a b : K) (v : V) (m : Table K V)
      → get b (insert a v m) ≡ (if k.same a b then some v else get b m)
  unfolding get insert
  get-insert a b v [] = refl
  get-insert a b v ((c, w) ∷ m) =
      ground (arith, k.same_iff a b, k.same_iff c a, k.same_iff c b, get-insert a b v m)

  pub get-remove :
      (a b : K) (m : Table K V) → get b (remove a m) ≡ (if k.same a b then none else get b m)
  unfolding get remove
  get-remove a b [] = ground arith
  get-remove a b ((c, w) ∷ m) =
      ground (arith, k.same_iff a b, k.same_iff c a, k.same_iff c b, get-remove a b m)
