-- ===== src/Sets.antt =====
-- Python's sets of texts, as lists.
use anycall.Prelude.{◌≡◌, refl, arith, Bool, true, false, not, ◌&&◌, List, [], ◌∷◌, if◌then◌else◌}
use anycall.Text.{Text}
use anycall.Text.Equality.{eq_iff}
use anycall.Redis.{contains}

-- `set(ids)` and the difference of two sets, as lists without repetition
unfoldable pub unique : List Text → List Text
unique [] = []
unique (x ∷ xs) = let rest = unique xs in if contains x rest then rest else x ∷ rest

unfoldable pub without : List Text → List Text → List Text
without ys [] = []
without ys (x ∷ xs) = let rest = without ys xs in if contains x ys then rest else x ∷ rest

-- `bool(xs)`
abbrev pub any : {A : Type 0} → List A → Bool
any [] = false
any (x ∷ xs) = true

pub contains-unique : (id : Text) (xs : List Text) → contains id (unique xs) ≡ contains id xs
unfolding unique
contains-unique id [] = refl
contains-unique id (x ∷ xs) = ground (arith, eq_iff x id, contains-unique id xs)

pub contains-without :
    (c : Text) (ys xs : List Text)
    → contains c (without ys xs) ≡ (contains c xs && not (contains c ys))
unfolding without
contains-without c ys [] = refl
contains-without c ys (x ∷ xs) = ground (arith, eq_iff x c, contains-without c ys xs)

pub contains-not_any : (c : Text) (xs : List Text) → any xs ≡ false → contains c xs ≡ false
contains-not_any c [] h = refl
contains-not_any c (x ∷ xs) h = cc
