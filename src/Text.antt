-- ===== src/Text.antt =====
-- Python's `str`: a sequence of code points. Literals are written by `codes`.
pub mod Equality
use Prim.Native.Char.{code}
use Prim.Native.String.{String}
use anycall.Prelude.{ℕ, Bool, true, false, ◌&&◌, List, [], ◌∷◌, eqb}

abbrev pub Text : Type 0
Text = List ℕ

abbrev pub codes : String → Text
codes String.[] = []
codes (String.◌∷◌ c s) = code c ∷ codes s

-- `s == t`
infix 50 ◌==◌
unfoldable pub ◌==◌ : Text → Text → Bool
[] == [] = true
[] == (b ∷ t) = false
(a ∷ s) == [] = false
(a ∷ s) == (b ∷ t) = eqb a b && s == t
