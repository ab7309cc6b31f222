-- ===== src/Prelude/Text.antt =====
-- Text as the list of its code points: a `&str` or `String` of the code that is taken apart or compared.
use Prim.Native.Nat.{ℕ}
use Prim.Native.Char.{code}
use Prim.Native.String.{String}
use mathlib.Core.Path.{◌≡◌}
use mathlib.Core.Logic.{◌↔◌}
use mathlib.Core.Bool.{Bool, true, false, ◌&&◌}
use mathlib.Core.List.{List, [], ◌∷◌}
use native.Mathlib.Omega.{arith}
use bifrox.Prelude.Tests.{◌==◌, ==_iff, Key}

abbrev pub Text : Type 0
Text = List ℕ

-- The code points of a literal.
abbrev pub codes : String → Text
codes String.[] = []
codes (String.◌∷◌ c s) = code c ∷ codes s

unfoldable pub same_text : Text → Text → Bool
same_text [] [] = true
same_text (a ∷ s) (b ∷ t) = a == b && same_text s t
same_text _ _ = false

pub same_text_iff : (s t : Text) → (same_text s t ≡ true) ↔ (s ≡ t)
unfolding same_text
same_text_iff [] [] = ground arith
same_text_iff [] (b ∷ t) = ground arith
same_text_iff (a ∷ s) [] = ground arith
same_text_iff (a ∷ s) (b ∷ t) = ground (arith, ==_iff a b, same_text_iff s t)

instance abbrev pub text_key : Key Text
text_key = record { same = same_text; same_iff = same_text_iff }

unfoldable pub starts_with : Text → Text → Bool
starts_with t [] = true
starts_with [] (a ∷ s) = false
starts_with (b ∷ t) (a ∷ s) = a == b && starts_with t s
