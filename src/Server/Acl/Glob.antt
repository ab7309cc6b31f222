-- ===== src/Server/Acl/Glob.antt =====
-- server/acl.rs: `glob_match`. An index into the pattern or the text is kept as the suffix at it.
pub mod Termination
pub mod Matching
use bifrox.Prelude.{
  ℕ, zero, suc, ◌+◌, ◌*◌, Bool, true, false, Option, none, some, [], ◌∷◌, ◌==◌, if◌then◌else◌,
  length,
}
use bifrox.Prelude.Text.{Text}

-- `(star_idx + 1, match_idx)`, while `star_idx` is set.
abbrev pub Star : Type 0
Star = Option (Text × Text)

-- `while pi < p.len() && p[pi] == '*'`, and the test behind it.
unfoldable pub only_stars : Text → Bool
only_stars [] = true
only_stars (c ∷ p) = if c == b'*' then only_stars p else false

-- The third branch of the loop, which gives one more character to the last star.
abbrev pub backtrack : (Text → Text → Star → Option Bool) → Star → Option Bool
backtrack loop none = some false
backtrack loop (some (after, [])) = some false
backtrack loop (some (after, m ∷ rest)) = loop after rest (some (after, rest))

-- The outer loop; `none` is lack of fuel. A backtrack with nothing left at `match_idx` does not
-- happen, since `match_idx` is at most the position in the text, which is not at its end.
unfoldable pub glob_loop : ℕ → Text → Text → Star → Option Bool
glob_loop zero p t star = none
glob_loop (suc fuel) p [] star = some (only_stars p)
glob_loop (suc fuel) (c ∷ p) (x ∷ t) star =
    let on_star = glob_loop fuel p (x ∷ t) (some (p, x ∷ t)) in
    let on_equal = glob_loop fuel p t star in
    let back = backtrack (glob_loop fuel) star in
    if c == b'*' then on_star else if c == x then on_equal else back
glob_loop (suc fuel) [] (x ∷ t) star = backtrack (glob_loop fuel) star

abbrev pub glob_fuel : Text → Text → ℕ
glob_fuel p t = (length t + 2) * (length p + length t + 2)

unfoldable pub glob_match : Text → Text → Option Bool
unfolding glob_loop only_stars
glob_match pattern text = glob_loop (glob_fuel pattern text) pattern text none
