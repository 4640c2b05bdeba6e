-- ===== src/Exec/Gives.antt =====
-- What actions return, when they return.
use anycall.Errors.{Result, ok, err}
use anycall.Exec.{World, Exec, pure, continue, ◌>>=◌}

abbrev pub IfOk : {A : Type 0} → (A → Type 0) → Result A → Type 0
IfOk P (ok a) = P a
IfOk P (err e) = Unit {0}

module _ {S L A : Type 0} where
  -- What is returned has the property, in every world.
  pub record Gives (P : A → Type 0) (m : Exec S L A) : Type 0 where
    pub at : (w : World S L) → IfOk P (m w).0

  pub Gives-pure : (P : A → Type 0) (a : A) → P a → Gives P (pure a)
  Gives-pure P a p = record { at = λ w. p }

module _ {S L A B : Type 0} where
  continue-IfOk :
      (P : A → Type 0) (Q : B → Type 0) (r : Result A) (f : A → Exec S L B) (w : World S L)
      → IfOk P r
      → ((a : A) → P a → Gives Q (f a))
      → IfOk Q (continue r f w).0
  continue-IfOk P Q (ok a) f w p h = (h a p).at w
  continue-IfOk P Q (err e) f w p h = tt

  pub Gives-bind :
      (P : A → Type 0) (Q : B → Type 0) (m : Exec S L A) (f : A → Exec S L B)
      → Gives P m
      → ((a : A) → P a → Gives Q (f a))
      → Gives Q (m >>= f)
  Gives-bind P Q m f p h = record { at = λ w. continue-IfOk P Q (m w).0 f (m w).1 (p.at w) h }

  -- What is returned on the way does not matter.
  pub Gives-after :
      (Q : B → Type 0) (m : Exec S L A) (f : A → Exec S L B)
      → ((a : A) → Gives Q (f a))
      → Gives Q (m >>= f)
  Gives-after Q m f h =
      Gives-bind (λ a. Unit {0}) Q m f (record { at = λ w. anything (m w).0 }) (λ a p. h a)
    where
      anything : (r : Result A) → IfOk (λ a. Unit {0}) r
      anything (ok a) = tt
      anything (err e) = tt
