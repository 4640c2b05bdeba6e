-- ===== src/Exec/Caught.antt =====
-- Actions whose exceptions are only logged.
use anycall.Prelude.{zero, suc, ◌+◌, ◌≡◌, ◌≢◌, refl, List, [], ◌∷◌}
use anycall.Errors.{unfinished, Result, ok, err}
use anycall.Exec.{
  World, Exec, Turn, Fault, answered, cut, lost, slow, pure, caught, catch, settle, exchange,
  round_trip,
}

caught_ok :
    {S L : Type 0} (r : Result (Unit {0})) (w : World S L) → (caught r (λ e. pure tt) w).0 ≡ ok tt
caught_ok (ok tt) w = refl
caught_ok (err e) w = refl

pub catch_ok :
    {S L : Type 0} (m : Exec S L (Unit {0})) (w : World S L) → (catch m (λ e. pure tt) w).0 ≡ ok tt
catch_ok m w = caught_ok (m w).0 (m w).1

module _ {S L A : Type 0} where
  settle_raises :
      (f : Fault) (s : S) (reply : A × S) (w : World S L) → (settle f s reply w).0 ≢ err unfinished
  settle_raises answered s reply w h = cc
  settle_raises (cut zero lost) s reply w h = cc
  settle_raises (cut zero slow) s reply w h = cc
  settle_raises (cut (suc n) lost) s reply w h = cc
  settle_raises (cut (suc n) slow) s reply w h = cc

  exchange_raises :
      (ts : List (Turn S)) (command : S → A × S) (w : World S L)
      → (exchange ts command w).0 ≢ err unfinished
  exchange_raises [] command w h = cc
  exchange_raises (t ∷ ts) command w h =
      settle_raises t.fault (t.others w.redis) (command (t.others w.redis))
        (record w { clock = w.clock + t.elapsed; turns = ts }) h

  -- A round trip raises what the connection raises.
  pub round_trip_raises :
      (command : S → A × S) (w : World S L) → (round_trip command w).0 ≢ err unfinished
  unfolding round_trip
  round_trip_raises command w = exchange_raises w.turns command w
