-- ===== src/Server/Acl/Glob/Termination.antt =====
-- The loop of `glob_match` ends within its fuel.
use bifrox.Prelude.{
  ℕ, zero, suc, ◌+◌, ◌*◌, ◌≤◌, ◌<◌, ◌≡◌, refl, Bool, true, false, Option, none, some, [], ◌∷◌, ◌==◌,
  if◌then◌else◌, length, arith,
}
use native.Mathlib.Nat.{suc-mul}
use bifrox.Prelude.Text.{Text}
use bifrox.Server.Acl.Glob.{Star, only_stars, backtrack, glob_loop, glob_fuel, glob_match}

-- The steps that the given number of backtracks takes, of at most `k` steps each.
budget : ℕ → Text → ℕ
budget k [] = 0
budget k (x ∷ xs) = k + budget k xs

budget_le : (k : ℕ) (xs ys : Text) → length xs ≤ length ys → budget k xs ≤ budget k ys
unfolding budget
budget_le k [] ys h = omega arith
budget_le k (x ∷ xs) [] h = absurd (omega arith)
budget_le k (x ∷ xs) (y ∷ ys) h = omega (arith, budget_le k xs ys (omega arith))

budget-length : (k : ℕ) (xs : Text) → budget k xs ≡ length xs * k
unfolding budget
budget-length k [] = omega arith
budget-length k (x ∷ xs) = omega (arith, budget-length k xs, suc-mul (length xs) k)

-- What is left to backtrack to, in a text `s`.
reserve : ℕ → Text → Star → ℕ
reserve k s none = k + budget k s
reserve k s (some (after, at_match)) = budget k at_match

-- The positions are within a pattern of length `p_len` and the text `s`, and the loop is not behind
-- the last star's position in the text.
abbrev Within : ℕ → Text → Text → Text → Star → Type 0
Within p_len s p t none = (length p ≤ p_len) × (length t ≤ length s)
Within p_len s p t (some (after, at_match)) =
    (length p ≤ p_len)
    × (length t ≤ length at_match)
    × (length at_match ≤ length s)
    × (length after ≤ p_len)

abbrev Ends : Option Bool → Type 0
Ends o = (b : Bool) × (o ≡ some b)

Ends-if : (c : Bool) (x y : Option Bool) → Ends x → Ends y → Ends (if c then x else y)
Ends-if true x y hx hy = hx
Ends-if false x y hx hy = hy

backtrack-Ends :
    (loop : Text → Text → Star → Option Bool) (fuel p_len : ℕ) (s p t : Text) (x : ℕ) (star : Star)
    → ((p' t' : Text) (star' : Star)
        → Within p_len s p' t' star'
        → reserve (p_len + length s + 1) s star' + length p' + length t' < fuel
        → Ends (loop p' t' star'))
    → Within p_len s p (x ∷ t) star
    → reserve (p_len + length s + 1) s star < suc fuel
    → Ends (backtrack loop star)
unfolding reserve budget
backtrack-Ends loop fuel p_len s p t x none ends within enough = (false, refl)
backtrack-Ends loop fuel p_len s p t x (some (after, [])) ends within enough = (false, refl)
backtrack-Ends loop fuel p_len s p t x (some (after, m ∷ rest)) ends (a, b, c, d) enough =
    ends after rest (some (after, rest)) (d, omega arith, omega arith, d) (omega arith)

star_reserve :
    (k p_len : ℕ) (s p t : Text) (star : Star)
    → Within p_len s p t star
    → budget k t ≤ reserve k s star
unfolding reserve
star_reserve k p_len s p t none (a, b) = omega (arith, budget_le k t s b)
star_reserve k p_len s p t (some (after, at_match)) (a, b, c, d) = budget_le k t at_match b

Within-star :
    (p_len c x : ℕ) (s p t : Text) (star : Star)
    → Within p_len s (c ∷ p) (x ∷ t) star
    → Within p_len s p (x ∷ t) (some (p, x ∷ t))
Within-star p_len c x s p t none (a, b) = (omega arith, omega arith, b, omega arith)
Within-star p_len c x s p t (some (after, at_match)) (a, b, d, e) =
    (omega arith, omega arith, omega arith, omega arith)

Within-both :
    (p_len c x : ℕ) (s p t : Text) (star : Star)
    → Within p_len s (c ∷ p) (x ∷ t) star
    → Within p_len s p t star
Within-both p_len c x s p t none (a, b) = (omega arith, omega arith)
Within-both p_len c x s p t (some (after, at_match)) (a, b, d, e) = (omega arith, omega arith, d, e)

glob_loop-Ends :
    (fuel p_len : ℕ) (s p t : Text) (star : Star)
    → Within p_len s p t star
    → reserve (p_len + length s + 1) s star + length p + length t < fuel
    → Ends (glob_loop fuel p t star)
unfolding glob_loop reserve
glob_loop-Ends zero p_len s p t star within enough = absurd (omega arith)
glob_loop-Ends (suc fuel) p_len s p [] star within enough = (only_stars p, refl)
glob_loop-Ends (suc fuel) p_len s [] (x ∷ t) star within enough =
    backtrack-Ends (glob_loop fuel) fuel p_len s [] t x star (glob_loop-Ends fuel p_len s) within
      (omega arith)
glob_loop-Ends (suc fuel) p_len s (c ∷ p) (x ∷ t) star within enough =
    let k = p_len + length s + 1 in
    Ends-if (c == b'*') _ _
      (glob_loop-Ends fuel p_len s p (x ∷ t) (some (p, x ∷ t))
        (Within-star p_len c x s p t star within)
        (omega (arith, star_reserve k p_len s (c ∷ p) (x ∷ t) star within)))
      (Ends-if (c == x) _ _
        (glob_loop-Ends fuel p_len s p t star (Within-both p_len c x s p t star within)
          (omega arith))
        (backtrack-Ends (glob_loop fuel) fuel p_len s (c ∷ p) t x star (glob_loop-Ends fuel p_len s)
          within (omega arith)))

-- Matching a text against a pattern ends, for every pattern and text, within the fuel that it is
-- given.
pub glob_match_ends : (pattern text : Text) → (b : Bool) × (glob_match pattern text ≡ some b)
unfolding glob_match reserve
glob_match_ends pattern text =
    let k = length pattern + length text + 1 in
    glob_loop-Ends (glob_fuel pattern text) (length pattern) text pattern text none
      (omega arith, omega arith) (grind (arith, budget-length k text))
