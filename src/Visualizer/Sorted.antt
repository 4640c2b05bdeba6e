-- ===== src/Visualizer/Sorted.antt =====
-- Python's `sorted`, for poller.py: stable, with texts in the order of their code points.
use anycall.Prelude.{Bool, true, false, List, [], ◌∷◌, ltb, eqb, if◌then◌else◌}
use anycall.Text.{Text}

-- `s < t`
unfoldable pub text_lt : Text → Text → Bool
text_lt [] [] = false
text_lt [] (b ∷ t) = true
text_lt (a ∷ s) [] = false
text_lt (a ∷ s) (b ∷ t) = let rest = text_lt s t in if eqb a b then rest else ltb a b

module _ {A : Type 0} (lt : A → A → Bool) where
  -- Before the first element that is not below it.
  unfoldable pub insort : A → List A → List A
  insort x [] = x ∷ []
  insort x (y ∷ ys) = let rest = insort x ys in if lt y x then y ∷ rest else x ∷ y ∷ ys

  unfoldable pub sorted : List A → List A
  unfolding insort
  sorted [] = []
  sorted (x ∷ xs) = insort x (sorted xs)
