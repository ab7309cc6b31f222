-- ===== src/Prelude/Lists.antt =====
-- Lists measured and indexed by native numbers, under the library's names, and predicates on them.
use Prim.Native.Nat.{ℕ, zero, suc, ◌+◌, ◌≤◌}
use mathlib.Core.Path.{◌≡◌, refl, sym, ap, subst}
use mathlib.Core.Logic.{◌⊎◌, inl, inr}
use mathlib.Core.Bool.{Bool, true, false, ◌||◌, false≢true}
use mathlib.Core.Option.{Option, none, some}
use mathlib.Core.List.{List, [], ◌∷◌, ◌++◌}
use native.Mathlib.Omega.{arith}

module _ {ℓ} {A : Type ℓ} where
  abbrev pub length : List A → ℕ
  length [] = 0
  length (x ∷ xs) = suc (length xs)

  abbrev pub get_elem? : List A → ℕ → Option A
  get_elem? [] i = none
  get_elem? (x ∷ xs) zero = some x
  get_elem? (x ∷ xs) (suc i) = get_elem? xs i

  abbrev pub take : ℕ → List A → List A
  take zero xs = []
  take (suc n) [] = []
  take (suc n) (x ∷ xs) = x ∷ take n xs

  abbrev pub drop : ℕ → List A → List A
  drop zero xs = xs
  drop (suc n) [] = []
  drop (suc n) (x ∷ xs) = drop n xs

  -- `Iterator::any` and `Vec::retain`.
  abbrev pub any : (A → Bool) → List A → Bool
  any p [] = false
  any p (x ∷ xs) = p x || any p xs

  abbrev pub keep_if : Bool → A → List A → List A
  keep_if true x xs = x ∷ xs
  keep_if false x xs = xs

  abbrev pub retain : (A → Bool) → List A → List A
  retain p [] = []
  retain p (x ∷ xs) = keep_if (p x) x (retain p xs)

  pub length-append : (xs ys : List A) → length (xs ++ ys) ≡ length xs + length ys
  length-append [] ys = omega arith
  length-append (x ∷ xs) ys = omega (arith, length-append xs ys)

  pub any-append : (p : A → Bool) (xs ys : List A) → any p (xs ++ ys) ≡ (any p xs || any p ys)
  any-append p [] ys = refl
  any-append p (x ∷ xs) ys = ground (arith, any-append p xs ys)

  -- Reading a list in three parts, the first of which has length `n`.
  pub take-append : (xs ys : List A) (n : ℕ) → length xs ≡ n → take n (xs ++ ys) ≡ xs
  take-append [] ys zero h = refl
  take-append [] ys (suc n) h = absurd (omega arith)
  take-append (x ∷ xs) ys zero h = absurd (omega arith)
  take-append (x ∷ xs) ys (suc n) h = ap (λ l. x ∷ l) (take-append xs ys n (omega arith))

  pub take_all : (xs : List A) (n : ℕ) → length xs ≡ n → take n xs ≡ xs
  take_all [] zero h = refl
  take_all [] (suc n) h = refl
  take_all (x ∷ xs) zero h = absurd (omega arith)
  take_all (x ∷ xs) (suc n) h = ap (λ l. x ∷ l) (take_all xs n (omega arith))

  pub length-take : (n : ℕ) (xs : List A) → length (take n xs) ≤ n
  length-take zero xs = omega arith
  length-take (suc n) [] = omega arith
  length-take (suc n) (x ∷ xs) = omega (arith, length-take n xs)

  pub drop-append : (xs ys : List A) (n : ℕ) → length xs ≡ n → drop n (xs ++ ys) ≡ ys
  drop-append [] ys zero h = refl
  drop-append [] ys (suc n) h = absurd (omega arith)
  drop-append (x ∷ xs) ys zero h = absurd (omega arith)
  drop-append (x ∷ xs) ys (suc n) h = drop-append xs ys n (omega arith)

  pub get_elem?-append_end :
      (xs ys : List A) (y : A) (n : ℕ) → length xs ≡ n → get_elem? (xs ++ (y ∷ ys)) n ≡ some y
  get_elem?-append_end [] ys y zero h = refl
  get_elem?-append_end [] ys y (suc n) h = absurd (omega arith)
  get_elem?-append_end (x ∷ xs) ys y zero h = absurd (omega arith)
  get_elem?-append_end (x ∷ xs) ys y (suc n) h = get_elem?-append_end xs ys y n (omega arith)

  pub drop-append_suc :
      (xs ys : List A) (y : A) (n : ℕ) → length xs ≡ n → drop (suc n) (xs ++ (y ∷ ys)) ≡ ys
  drop-append_suc [] ys y zero h = refl
  drop-append_suc [] ys y (suc n) h = absurd (omega arith)
  drop-append_suc (x ∷ xs) ys y zero h = absurd (omega arith)
  drop-append_suc (x ∷ xs) ys y (suc n) h = drop-append_suc xs ys y n (omega arith)

  pub length-retain : (p : A → Bool) (xs : List A) → length (retain p xs) ≤ length xs
  length-retain p [] = omega arith
  length-retain p (x ∷ xs) = ground (arith, length-retain p xs)

module _ {ℓ κ} {A : Type ℓ} where
  abbrev pub All : (A → Type κ) → List A → Type κ
  All P [] = Unit {κ}
  All P (x ∷ xs) = P x × All P xs

  pub All-append : (P : A → Type κ) (xs ys : List A) → All P xs → All P ys → All P (xs ++ ys)
  All-append P [] ys hx hy = hy
  All-append P (x ∷ xs) ys (h, hx) hy = (h, All-append P xs ys hx hy)

  pub All-retain : (P : A → Type κ) (p : A → Bool) (xs : List A) → All P xs → All P (retain p xs)
  All-retain P p [] h = h
  All-retain P p (x ∷ xs) (h, hs) = go (p x) (All-retain P p xs hs)
    where
      go : (b : Bool) → All P (retain p xs) → All P (keep_if b x (retain p xs))
      go true r = (h, r)
      go false r = r

-- Membership by recursion, which the tactics take apart.
abbrev pub Occurs : {A : Type 0} → A → List A → Type 0
Occurs a [] = ⊥
Occurs a (x ∷ xs) = (a ≡ x) ⊎ Occurs a xs

module _ {A : Type 0} where
  pub Occurs-append_left : (a : A) (xs ys : List A) → Occurs a xs → Occurs a (xs ++ ys)
  Occurs-append_left a [] ys m = absurd m
  Occurs-append_left a (x ∷ xs) ys (inl e) = inl e
  Occurs-append_left a (x ∷ xs) ys (inr m) = inr (Occurs-append_left a xs ys m)

  pub Occurs-append_right : (a : A) (xs ys : List A) → Occurs a ys → Occurs a (xs ++ ys)
  Occurs-append_right a [] ys m = m
  Occurs-append_right a (x ∷ xs) ys m = inr (Occurs-append_right a xs ys m)

  pub Occurs-of_append : (a : A) (xs ys : List A) → Occurs a (xs ++ ys) → Occurs a xs ⊎ Occurs a ys
  Occurs-of_append a [] ys m = inr m
  Occurs-of_append a (x ∷ xs) ys (inl e) = inl (inl e)
  Occurs-of_append a (x ∷ xs) ys (inr m) = elim (Occurs-of_append a xs ys m) [
    | inl l ↦ inl (inr l)
    | inr r ↦ inr r
  ]

  pub All-Occurs : (P : A → Type 0) (a : A) (xs : List A) → All P xs → Occurs a xs → P a
  All-Occurs P a [] h m = absurd m
  All-Occurs P a (x ∷ xs) (h, hs) (inl e) = subst P (sym e) h
  All-Occurs P a (x ∷ xs) (h, hs) (inr m) = All-Occurs P a xs hs m

  -- `any` finds an element that passes, and reports one that is there.
  pub any-Occurs :
      (p : A → Bool) (xs : List A) → any p xs ≡ true → (a : A) × Occurs a xs × (p a ≡ true)
  any-Occurs p [] h = absurd (false≢true h)
  any-Occurs p (x ∷ xs) h = go (p x) refl (any-Occurs p xs)
    where
      go :
          (b : Bool)
          → p x ≡ b
          → (any p xs ≡ true → (a : A) × Occurs a xs × (p a ≡ true))
          → (a : A) × Occurs a (x ∷ xs) × (p a ≡ true)
      go true e ih = (x, inl refl, e)
      go false e ih = let (a, m, q) = ih (rw e at h) in (a, inr m, q)

  pub any_of_Occurs :
      (p : A → Bool) (a : A) (xs : List A) → Occurs a xs → p a ≡ true → any p xs ≡ true
  any_of_Occurs p a [] m q = absurd m
  any_of_Occurs p a (x ∷ xs) (inl e) q = rw (← e, q)
  any_of_Occurs p a (x ∷ xs) (inr m) q = rw (any_of_Occurs p a xs m q) (ground arith)
