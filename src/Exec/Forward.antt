-- ===== src/Exec/Forward.antt =====
-- Actions and the clock.
use anycall.Prelude.{◌≤◌, Bool, true, false, List, [], ◌∷◌, arith, if◌then◌else◌}
use anycall.Errors.{Exn, Result, ok, err}
use anycall.Exec.{
  World, Exec, Turn, pure, lift, caught, catch, continue, ◌>>=◌, ◌>>◌, monotonic, modify,
  round_trip, pipeline, exchange, exchange_all,
}

pub record Forward {S L A : Type 0} (m : Exec S L A) : Type 0 where
  pub at : (w : World S L) → w.clock ≤ (m w).1.clock

module _ {S L A B : Type 0} where
  Forward-continue :
      (r : Result A) (f : A → Exec S L B) (w : World S L)
      → ((a : A) → Forward (f a))
      → w.clock ≤ (continue r f w).1.clock
  Forward-continue (ok a) f w h = (h a).at w
  Forward-continue (err e) f w h = omega arith

  pub Forward-bind :
      (m : Exec S L A) (f : A → Exec S L B)
      → Forward m
      → ((a : A) → Forward (f a))
      → Forward (m >>= f)
  Forward-bind m f h k = record {
    at = λ w. omega (arith, h.at w, Forward-continue (m w).0 f (m w).1 k);
  }

  pub Forward-then : (m : Exec S L A) (n : Exec S L B) → Forward m → Forward n → Forward (m >> n)
  Forward-then m n h k = Forward-bind m (λ _. n) h (λ _. k)

module _ {S L A : Type 0} where
  pub Forward-pure : (a : A) → Forward {S = S} {L = L} (pure a)
  Forward-pure a = record { at = λ w. omega arith }

  pub Forward-lift : (r : Result A) → Forward {S = S} {L = L} (lift r)
  Forward-lift r = record { at = λ w. omega arith }

  pub Forward-if :
      (b : Bool) (m n : Exec S L A) → Forward m → Forward n → Forward (if b then m else n)
  Forward-if true m n h k = h
  Forward-if false m n h k = k

  caught-Forward :
      (r : Result A) (handler : Exn → Exec S L A) (w : World S L)
      → ((e : Exn) → Forward (handler e))
      → w.clock ≤ (caught r handler w).1.clock
  caught-Forward (ok a) handler w h = omega arith
  caught-Forward (err e) handler w h = (h e).at w

  pub Forward-catch :
      (m : Exec S L A) (handler : Exn → Exec S L A)
      → Forward m
      → ((e : Exn) → Forward (handler e))
      → Forward (catch m handler)
  Forward-catch m handler h k = record {
    at = λ w. omega (arith, h.at w, caught-Forward (m w).0 handler (m w).1 k);
  }

  exchange_forward :
      (ts : List (Turn S)) (command : S → A × S) (w : World S L)
      → w.clock ≤ (exchange ts command w).1.clock
  exchange_forward [] command w = omega arith
  exchange_forward (t ∷ ts) command w = ground arith

  pub Forward-round_trip : (command : S → A × S) → Forward {S = S} {L = L} (round_trip command)
  unfolding round_trip
  Forward-round_trip command = record { at = λ w. exchange_forward w.turns command w }

module _ {S L : Type 0} where
  pub Forward-monotonic : Forward {S = S} {L = L} monotonic
  Forward-monotonic = record { at = λ w. omega arith }

  pub Forward-modify : (f : L → L) → Forward {S = S} (modify f)
  Forward-modify f = record { at = λ w. omega arith }

  exchange_all_forward :
      (ts : List (Turn S)) (cs : List (S → S)) (w : World S L)
      → w.clock ≤ (exchange_all ts cs w).1.clock
  exchange_all_forward [] cs w = omega arith
  exchange_all_forward (t ∷ ts) cs w = ground arith

  pub Forward-pipeline : (cs : List (S → S)) → Forward {S = S} {L = L} (pipeline cs)
  unfolding pipeline
  Forward-pipeline cs = record { at = λ w. exchange_all_forward w.turns cs w }

pub ruleset forward_rules = (
  Forward-bind, Forward-then, Forward-pure, Forward-lift, Forward-if, Forward-catch,
  Forward-round_trip, Forward-monotonic, Forward-modify, Forward-pipeline,
)
