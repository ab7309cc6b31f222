-- ===== src/Server/Acl/Glob/Matching.antt =====
-- The loop of `glob_match` against a definition of matching by recursion on the pattern.
use mathlib.Core.List.{append_assoc}
use bifrox.Prelude.{
  ℕ, zero, suc, ◌+◌, ◌<◌, ◌≡◌, ◌∙◌, refl, sym, ap, subst, Bool, true, false, ◌&&◌, ◌||◌, Option,
  none, some, [], ◌∷◌, ◌++◌, ◌==◌, if◌then◌else◌, length, length-append, drop, ==_iff, arith,
  Bool-cases, inl, inr,
}
use bifrox.Prelude.Text.{Text}
use bifrox.Server.Acl.Glob.{Star, only_stars, backtrack, glob_loop, glob_fuel, glob_match}
use bifrox.Server.Acl.Glob.Termination.{glob_match_ends}

abbrev null : Text → Bool
null [] = true
null (x ∷ t) = false

abbrev any_suffix : (Text → Bool) → Text → Bool
any_suffix q [] = q []
any_suffix q (x ∷ t) = q (x ∷ t) || any_suffix q t

abbrev first_is : ℕ → (Text → Bool) → Text → Bool
first_is c q [] = false
first_is c q (x ∷ t) = c == x && q t

-- A star stands for any characters, and every other character for itself.
unfoldable pub matches : Text → Text → Bool
matches [] t = null t
matches (c ∷ p) t = if c == b'*' then any_suffix (matches p) t else first_is c (matches p) t

any_suffix-drop :
    (q : Text → Bool) (t : Text) → any_suffix q (drop 1 t) ≡ true → any_suffix q t ≡ true
any_suffix-drop q [] h = h
any_suffix-drop q (x ∷ t) h = ground (arith, h)

abbrev NoStars : Text → Type 0
NoStars [] = Unit
NoStars (c ∷ p) = ((c == b'*') ≡ false) × NoStars p

and_right : (a b : Bool) → (a && b) ≡ true → b ≡ true
and_right a b h = ground (arith, h)

-- A match of literals and then a star leaves a match of what is behind the star.
literals_then_star :
    (pre p s : Text)
    → NoStars pre
    → matches (pre ++ (b'*' ∷ p)) s ≡ true
    → any_suffix (matches p) (drop (length pre) s) ≡ true
unfolding matches
literals_then_star [] p s h m = m
literals_then_star (c ∷ pre) p [] (n, ns) m = cc (n, m)
literals_then_star (c ∷ pre) p (x ∷ s) (n, ns) m =
    literals_then_star pre p s ns (and_right (c == x) _ (rw n at m))

drop_one : (n : ℕ) (x : ℕ) (s : Text) → drop n s ≡ drop 1 (drop n (x ∷ s))
drop_one zero x s = refl
drop_one (suc zero) x [] = refl
drop_one (suc (suc n)) x [] = refl
drop_one (suc n) x (y ∷ s) = drop_one n y s

any_literals_then_star :
    (pre p s : Text)
    → NoStars pre
    → any_suffix (matches (pre ++ (b'*' ∷ p))) s ≡ true
    → any_suffix (matches p) (drop (length pre) s) ≡ true
any_literals_then_star pre p [] n m = literals_then_star pre p [] n m
any_literals_then_star pre p (x ∷ s) n m = elim (Bool-cases (matches (pre ++ (b'*' ∷ p)) (x ∷ s))) [
  | inl here ↦ literals_then_star pre p (x ∷ s) n here
  | inr there ↦ any_suffix-drop (matches p) (drop (length pre) (x ∷ s)) (
      subst (λ u. any_suffix (matches p) u ≡ true) (drop_one (length pre) x s)
        (any_literals_then_star pre p s n (rw there at m)))
]

only_stars-matches : (p : Text) → only_stars p ≡ matches p []
unfolding only_stars matches
only_stars-matches [] = refl
only_stars-matches (c ∷ p) = ground (arith, only_stars-matches p)

-- What the last star may still match.
abbrev later : Star → Bool
later none = false
later (some (after, [])) = false
later (some (after, m ∷ rest)) = any_suffix (matches after) rest

-- Since the last star, literals have been matched.
abbrev Since : Text → Text → Star → Type 0
Since p t none = Unit
Since p t (some (after, at_match)) =
    (pre : Text) × NoStars pre
    × (after ≡ pre ++ p)
    × (drop (length pre) at_match ≡ t)
    × (length at_match ≡ length pre + length t)

-- At a star, what an earlier star may still match is no more.
star_replaces :
    (p t : Text) (star : Star)
    → Since (b'*' ∷ p) t star
    → later star ≡ true
    → any_suffix (matches p) t ≡ true
star_replaces p t none s h = cc h
star_replaces p t (some (after, [])) s h = cc h
star_replaces p t (some (after, m ∷ rest)) (pre, n, e, d, l) h = any_suffix-drop (matches p) t (
    subst (λ u. any_suffix (matches p) u ≡ true) (drop_one (length pre) m rest ∙ ap (drop 1) d)
      (any_literals_then_star pre p rest n (subst (λ a. any_suffix (matches a) rest ≡ true) e h)))

and_false : (a : Bool) → (a && false) ≡ false
and_false a = ground arith

or_false : (a : Bool) → (a || false) ≡ a
or_false a = ground arith

short_no_match :
    (pre p s : Text) → NoStars pre → length s < length pre → matches (pre ++ p) s ≡ false
unfolding matches
short_no_match [] p s n h = absurd (omega arith)
short_no_match (c ∷ pre) p [] (n, ns) h = rw n refl
short_no_match (c ∷ pre) p (x ∷ s) (n, ns) h =
    rw n (rw (short_no_match pre p s ns (omega arith)) (and_false (c == x)))

any_short :
    (pre p s : Text)
    → NoStars pre
    → length s < length pre
    → any_suffix (matches (pre ++ p)) s ≡ false
any_short pre p [] n h = short_no_match pre p [] n h
any_short pre p (x ∷ s) n h =
    rw (short_no_match pre p (x ∷ s) n h) (any_short pre p s n (omega arith))

-- At the end of the text an earlier star can match nothing more.
later_at_end : (p : Text) (star : Star) → Since p [] star → later star ≡ false
later_at_end p none s = refl
later_at_end p (some (after, [])) s = refl
later_at_end p (some (after, m ∷ rest)) (pre, n, e, d, l) =
    subst (λ a. any_suffix (matches a) rest ≡ false) (sym e) (any_short pre p rest n (omega arith))

absorb : (a l : Bool) → (l ≡ true → a ≡ true) → a ≡ (a || l)
absorb true l h = refl
absorb false true h = h refl
absorb false false h = refl

resume :
    (after rest : Text)
    → (matches after rest || later (some (after, rest))) ≡ any_suffix (matches after) rest
resume after [] = or_false (matches after [])
resume after (x ∷ rest) = refl

Since-self : (p t : Text) → Since p t (some (p, t))
Since-self p t = ([], tt, refl, refl, omega arith)

NoStars-append :
    (pre : Text) (c : ℕ) → NoStars pre → (c == b'*') ≡ false → NoStars (pre ++ (c ∷ []))
NoStars-append [] c ns n = (n, tt)
NoStars-append (a ∷ pre) c (m, ns) n = (m, NoStars-append pre c ns n)

drop_next :
    (pre : Text) (c x : ℕ) (s t : Text)
    → drop (length pre) s ≡ x ∷ t
    → drop (length (pre ++ (c ∷ []))) s ≡ t
drop_next [] c x s t h = ap (drop 1) h
drop_next (a ∷ pre) c x [] t h = cc h
drop_next (a ∷ pre) c x (y ∷ s) t h = drop_next pre c x s t h

Since-literal :
    (c x : ℕ) (p t : Text) (star : Star)
    → (c == b'*') ≡ false
    → Since (c ∷ p) (x ∷ t) star
    → Since p t star
Since-literal c x p t none n s = tt
Since-literal c x p t (some (after, at_match)) n (pre, ns, e, d, l) = (
  pre ++ (c ∷ []),
  NoStars-append pre c ns n,
  e ∙ sym (append_assoc pre (c ∷ []) p),
  drop_next pre c x at_match t d,
  omega (arith, length-append pre (c ∷ [])),
)

backtrack_correct :
    (loop : Text → Text → Star → Option Bool) (star : Star) (b : Bool)
    → ((p t : Text) (star' : Star) (b' : Bool)
        → Since p t star'
        → loop p t star' ≡ some b'
        → b' ≡ (matches p t || later star'))
    → backtrack loop star ≡ some b
    → b ≡ later star
backtrack_correct loop none b correct e = cc e
backtrack_correct loop (some (after, [])) b correct e = cc e
backtrack_correct loop (some (after, m ∷ rest)) b correct e =
    correct after rest (some (after, rest)) b (Since-self after rest) e ∙ resume after rest

glob_loop_correct :
    (fuel : ℕ) (p t : Text) (star : Star) (b : Bool)
    → Since p t star
    → glob_loop fuel p t star ≡ some b
    → b ≡ (matches p t || later star)
unfolding glob_loop matches
glob_loop_correct zero p t star b s e = cc e
glob_loop_correct (suc fuel) p [] star b s e =
    let same : b ≡ only_stars p = cc e in
    rw (later_at_end p star s) (same ∙ only_stars-matches p ∙ sym (or_false (matches p [])))
glob_loop_correct (suc fuel) [] (x ∷ t) star b s e =
    backtrack_correct (glob_loop fuel) star b (glob_loop_correct fuel) e
glob_loop_correct (suc fuel) (c ∷ p) (x ∷ t) star b s e = elim (Bool-cases (c == b'*')) [
  | inl h ↦
      let tried =
        glob_loop_correct fuel p (x ∷ t) (some (p, x ∷ t)) b (Since-self p (x ∷ t)) (rw h at e) in
      let replaced =
        star_replaces p (x ∷ t) star
          (subst (λ d. Since (d ∷ p) (x ∷ t) star) ((==_iff c b'*').0 h) s) in
      rw h (tried ∙ absorb _ (later star) replaced)
  | inr h ↦ elim (Bool-cases (c == x)) [
    | inl g ↦
        rw (h, g)
          (glob_loop_correct fuel p t star b (Since-literal c x p t star h s) (rw (h, g) at e))
    | inr g ↦
        rw (h, g)
          (backtrack_correct (glob_loop fuel) star b (glob_loop_correct fuel) (rw (h, g) at e))
  ]
]

-- Matching answers as the recursive definition does, for every pattern and text.
pub glob_match-matches :
    (pattern text : Text) → glob_match pattern text ≡ some (matches pattern text)
unfolding glob_match
glob_match-matches pattern text =
    let (b, e) = glob_match_ends pattern text in
    e ∙ ap some (glob_loop_correct (glob_fuel pattern text) pattern text none b tt e ∙ or_false _)
