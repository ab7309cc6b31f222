-- ===== src/Segment/Search.antt =====
-- `binary_search_by_key` of the standard library, whose answer among equal keys is not fixed.
use bifrox.Prelude.{
  ℕ, zero, suc, ◌≤◌, ◌<◌, ◌≡◌, ◌⊎◌, refl, subst, some, List, [], ◌∷◌, All, length, get_elem?, map,
  arith,
}

-- `Ok` with the position of a match, or `Err` with the position where the key belongs.
pub data Found : Type 0 where
  found missing : ℕ → Found

abbrev pub Search : Type 0
Search = List ℕ → ℕ → Found

-- The keys do not descend.
abbrev pub Ascends : List ℕ → Type 0
Ascends [] = Unit
Ascends (x ∷ xs) = All (λ y. x ≤ y) xs × Ascends xs

abbrev pub Answers : List ℕ → ℕ → Found → Type 0
Answers keys x (found i) = get_elem? keys i ≡ some x
Answers keys x (missing i) =
    (i ≤ length keys)
    × ((j y : ℕ) → get_elem? keys j ≡ some y → j < i → y < x)
    × ((j y : ℕ) → get_elem? keys j ≡ some y → i ≤ j → x < y)

-- What the standard library documents, for keys in order.
abbrev pub SearchesOrdered : Search → Type 0
SearchesOrdered search = (keys : List ℕ) (x : ℕ) → Ascends keys → Answers keys x (search keys x)

pub All-get : (P : ℕ → Type 0) (xs : List ℕ) (i y : ℕ) → All P xs → get_elem? xs i ≡ some y → P y
All-get P [] i y h e = cc e
All-get P (x ∷ xs) zero y (h, hs) e = subst P (cc e) h
All-get P (x ∷ xs) (suc i) y (h, hs) e = All-get P xs i y hs e

pub Ascends-get :
    (xs : List ℕ) (i j y z : ℕ)
    → Ascends xs
    → i ≤ j
    → get_elem? xs i ≡ some y
    → get_elem? xs j ≡ some z
    → y ≤ z
Ascends-get [] i j y z h le e e' = cc e
Ascends-get (x ∷ xs) zero zero y z h le e e' = let same : y ≡ z = cc (e, e') in omega arith
Ascends-get (x ∷ xs) zero (suc j) y z (h, hs) le e e' =
    All-get (λ w. y ≤ w) xs j z (subst (λ u. All (λ w. u ≤ w) xs) (cc e) h) e'
Ascends-get (x ∷ xs) (suc i) zero y z h le e e' = absurd (omega arith)
Ascends-get (x ∷ xs) (suc i) (suc j) y z (h, hs) le e e' =
    Ascends-get xs i j y z hs (omega arith) e e'

pub le_or_lt : (a b : ℕ) → (a ≤ b) ⊎ (b < a)
le_or_lt a b = ground arith

pub within_of_get : (xs : List ℕ) (i y : ℕ) → get_elem? xs i ≡ some y → i < length xs
within_of_get [] i y e = cc e
within_of_get (x ∷ xs) zero y e = omega arith
within_of_get (x ∷ xs) (suc i) y e = omega (arith, within_of_get xs i y e)

module _ {A : Type 0} where
  pub get_elem?-map :
      (f : A → ℕ) (xs : List A) (i : ℕ) (a : A)
      → get_elem? xs i ≡ some a
      → get_elem? (map f xs) i ≡ some (f a)
  get_elem?-map f [] i a e = cc e
  get_elem?-map f (x ∷ xs) zero a e = cc e
  get_elem?-map f (x ∷ xs) (suc i) a e = get_elem?-map f xs i a e

  pub get_elem?-within : (xs : List A) (i : ℕ) → i < length xs → (a : A) × (get_elem? xs i ≡ some a)
  get_elem?-within [] i h = absurd (omega arith)
  get_elem?-within (x ∷ xs) zero h = (x, refl)
  get_elem?-within (x ∷ xs) (suc i) h = get_elem?-within xs i (omega arith)

  pub length-map : (f : A → ℕ) (xs : List A) → length (map f xs) ≡ length xs
  length-map f [] = refl
  length-map f (x ∷ xs) = omega (arith, length-map f xs)
