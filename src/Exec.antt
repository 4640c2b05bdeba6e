-- ===== src/Exec.antt =====
-- Code that talks to Redis over a connection: exceptions, a clock, and round trips that may fail,
-- with whatever other processes do in between.
pub mod Forward
pub mod Caught
pub mod Gives
use anycall.Prelude.{ℕ, zero, suc, ◌+◌, List, [], ◌∷◌}
use anycall.Errors.{Exn, redis_error, redis_timeout, Result, ok, err}

-- A connection is lost, or its socket timeout passes.
pub data Failure : Type 0 where
  lost slow : Failure

-- How a round trip ends: answered, or cut off with an exception of `redis` after the first `n` of
-- its commands had been executed.
pub data Fault : Type 0 where
  answered : Fault
  cut : ℕ → Failure → Fault

-- redis.exceptions.ConnectionError and redis.exceptions.TimeoutError
abbrev pub failure : Failure → Exn
failure lost = redis_error
failure slow = redis_timeout

-- One round trip's share of the environment: what others do to the server before it, how long it
-- takes, and how it ends.
pub record Turn (S : Type 0) : Type 0 where
  pub others : S → S
  pub elapsed : ℕ
  pub fault : Fault

-- `clock` is `time.monotonic()` in microseconds; `self` is the calling object. With the turns used
-- up, the process is alone and its connection works.
pub record World (S L : Type 0) : Type 0 where
  pub redis : S
  pub clock : ℕ
  pub turns : List (Turn S)
  pub self : L

-- A process alone with a connection that works.
abbrev pub alone : {S L : Type 0} → S → ℕ → L → World S L
alone s clock self = record { redis = s; clock = clock; turns = []; self = self }

abbrev pub Exec : Type 0 → Type 0 → Type 0 → Type 0
Exec S L A = World S L → Result A × World S L

module _ {S L A : Type 0} where
  abbrev pub pure : A → Exec S L A
  pure a w = (ok a, w)

  abbrev pub raise : Exn → Exec S L A
  raise e w = (err e, w)

  abbrev pub lift : Result A → Exec S L A
  lift r w = (r, w)

  -- `except Exception`: the handler's state is the one that the body left.
  abbrev pub caught : Result A → (Exn → Exec S L A) → Exec S L A
  caught (ok a) handler w = (ok a, w)
  caught (err e) handler w = handler e w

  abbrev pub catch : Exec S L A → (Exn → Exec S L A) → Exec S L A
  catch m handler w = let (r, w') = m w in caught r handler w'

module _ {S L A B : Type 0} where
  abbrev pub continue : Result A → (A → Exec S L B) → Exec S L B
  continue (ok a) f w = f a w
  continue (err e) f w = (err e, w)

  infixl 5 ◌>>=◌ ◌>>◌
  abbrev pub ◌>>=◌ : Exec S L A → (A → Exec S L B) → Exec S L B
  ◌>>=◌ m f w = let (r, w') = m w in continue r f w'

  abbrev pub ◌>>◌ : Exec S L A → Exec S L B → Exec S L B
  m >> n = m >>= λ _. n

module _ {S L : Type 0} where
  abbrev pub monotonic : Exec S L ℕ
  monotonic w = (ok w.clock, w)

  abbrev pub gets : {A : Type 0} → (L → A) → Exec S L A
  gets f w = (ok (f w.self), w)

  abbrev pub modify : (L → L) → Exec S L (Unit {0})
  modify f w = (ok tt, record w { self = f w.self })

-- The first `n` commands of a pipeline.
unfoldable pub run_first : {S : Type 0} → ℕ → List (S → S) → S → S
run_first zero cs s = s
run_first (suc n) [] s = s
run_first (suc n) (c ∷ cs) s = run_first n cs (c s)

unfoldable pub run_all : {S : Type 0} → List (S → S) → S → S
run_all [] s = s
run_all (c ∷ cs) s = run_all cs (c s)

module _ {S L : Type 0} where
  abbrev pub settle : {A : Type 0} → Fault → S → A × S → World S L → Result A × World S L
  settle answered before (a, after) w = (ok a, record w { redis = after })
  settle (cut zero e) before (a, after) w = (err (failure e), record w { redis = before })
  settle (cut (suc n) e) before (a, after) w = (err (failure e), record w { redis = after })

  abbrev pub exchange : {A : Type 0} → List (Turn S) → (S → A × S) → Exec S L A
  exchange [] command w = settle answered w.redis (command w.redis) w
  exchange (t ∷ ts) command w =
      settle t.fault (t.others w.redis) (command (t.others w.redis))
        (record w { clock = w.clock + t.elapsed; turns = ts })

  -- One command, or one script, and its reply.
  unfoldable pub round_trip : {A : Type 0} → (S → A × S) → Exec S L A
  round_trip command w = exchange w.turns command w

  abbrev pub settle_all : Fault → S → List (S → S) → World S L → Result (Unit {0}) × World S L
  settle_all answered s cs w = (ok tt, record w { redis = run_all cs s })
  settle_all (cut n e) s cs w = (err (failure e), record w { redis = run_first n cs s })

  abbrev pub exchange_all : List (Turn S) → List (S → S) → Exec S L (Unit {0})
  exchange_all [] cs w = settle_all answered w.redis cs w
  exchange_all (t ∷ ts) cs w =
      settle_all t.fault (t.others w.redis) cs
        (record w { clock = w.clock + t.elapsed; turns = ts })

  -- A pipeline without MULTI: others may see it half done, if it is cut off.
  unfoldable pub pipeline : List (S → S) → Exec S L (Unit {0})
  unfolding run_first run_all
  pipeline cs w = exchange_all w.turns cs w
