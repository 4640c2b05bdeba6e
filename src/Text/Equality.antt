-- ===== src/Text/Equality.antt =====
-- The equality test on texts.
use anycall.Prelude.{◌≡◌, refl, ◌↔◌, ◌≢◌, true, false, [], ◌∷◌, ◌++◌, arith, eqb→eq, eqb_self}
use anycall.Text.{Text, ◌==◌}

pub eq→path : (s t : Text) → (s == t) ≡ true → s ≡ t
unfolding ◌==◌
eq→path [] [] h = refl
eq→path [] (b ∷ t) h = ground arith
eq→path (a ∷ s) [] h = ground arith
eq→path (a ∷ s) (b ∷ t) h = ground (arith, eq→path s t, eqb→eq a b)

pub eq_self : (s : Text) → (s == s) ≡ true
unfolding ◌==◌
eq_self [] = refl
eq_self (a ∷ s) = ground (arith, eq_self s, eqb_self a)

pub eq_iff : (s t : Text) → ((s == t) ≡ true) ↔ (s ≡ t)
eq_iff s t = (eq→path s t, λ e. rw e (eq_self t))

pub ne→false : (s t : Text) → s ≢ t → (s == t) ≡ false
ne→false s t h = ground (arith, eq→path s t)

-- A common prefix can be cancelled.
pub append_cancel : (p s t : Text) → p ++ s ≡ p ++ t → s ≡ t
append_cancel [] s t h = h
append_cancel (a ∷ p) s t h = append_cancel p s t (cc)
