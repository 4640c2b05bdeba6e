-- ===== src/Client/Steps.antt =====
-- The steps of a waiting call of client.py, with what they raise and how the clock moves.
use anycall.Prelude.{
  ℕ, ◌+◌, ◌≤◌, ◌≡◌, ◌≢◌, Bool, true, false, Option, none, some, List, [], ◌∷◌, arith, inl, inr,
  Bool-cases, ltb,
}
use anycall.Text.{Text}
use anycall.Errors.{unfinished, Result, ok, err}
use anycall.Redis.{Redis, contains}
use anycall.Exec.{World, continue, round_trip, ◌>>=◌}
use anycall.Exec.Forward.{
  Forward, forward_rules, Forward-if, Forward-pure, Forward-then, Forward-round_trip,
}
use anycall.Adapter.{
  pop, brpop, wait_out, inflight_owners, alive_members, release_inflight, respond,
}
use anycall.Reaping.{fail_back, reap_one, reap_orphans}
use anycall.Exec.Caught.{catch_ok, round_trip_raises}
use anycall.Queues.{inflight_key}
use anycall.Client.{waiter_reap_quiet, with_lock, Client, reap_owned, reap_locked, reap_if_quiet}

module _ (R : Redis) where
  open R use {State}

  respond-Forward :
      {L : Type 0} (queue value : Text) (ttl : ℕ) (inflight id : Text)
      → Forward {L = L} (respond R queue value ttl inflight id)
  unfolding respond
  respond-Forward queue value ttl inflight id = search forward_rules

  release-Forward : {L : Type 0} (key id : Text) → Forward {L = L} (release_inflight R key id)
  unfolding release_inflight
  release-Forward key id = search forward_rules

  fail_back-Forward :
      {L : Type 0} (id owner : Text) (b : Bool) → Forward {L = L} (fail_back R id owner b)
  unfolding fail_back
  fail_back-Forward id owner true = search (forward_rules, respond-Forward)
  fail_back-Forward id owner false = search forward_rules

  reap_one-Forward : {L : Type 0} (id owner : Text) → Forward {L = L} (reap_one R id owner)
  unfolding reap_one
  reap_one-Forward id owner = search (forward_rules, release-Forward, fail_back-Forward)

  reap_orphans-Forward :
      {L : Type 0} (owners : List (Text × Text)) (alive : List Text)
      → Forward {L = L} (reap_orphans R owners alive)
  unfolding reap_orphans
  reap_orphans-Forward [] alive = search forward_rules
  reap_orphans-Forward ((id, owner) ∷ owners) alive =
      Forward-if (contains owner alive) _ _ (reap_orphans-Forward owners alive)
        (Forward-then _ _ (reap_one-Forward id owner) (reap_orphans-Forward owners alive))

  reap_owned-Forward : (owners : List (Text × Text)) → Forward (reap_owned R owners)
  unfolding reap_owned alive_members
  reap_owned-Forward [] = search forward_rules
  reap_owned-Forward (entry ∷ owners) = search (forward_rules, reap_orphans-Forward)

  reap_locked-Forward : Forward (reap_locked R)
  unfolding reap_locked inflight_owners
  reap_locked-Forward = search (forward_rules, reap_owned-Forward) depth 8

  reap_locked_ok : (w : World State Client) → (reap_locked R w).0 ≡ ok tt
  unfolding reap_locked
  reap_locked_ok w = rw (
      catch_ok (inflight_owners R inflight_key >>= reap_owned R)
        (record w { self = with_lock true w.self }))

  pub reap_if_quiet-Forward : Forward (reap_if_quiet R)
  unfolding reap_if_quiet
  reap_if_quiet-Forward = record {
    at = λ w.
        (Forward-if (ltb w.clock (w.self.last_activity + waiter_reap_quiet)) _ _ (Forward-pure tt)
            (Forward-if w.self.reap_lock _ _ (Forward-pure tt) reap_locked-Forward)).at
          w;
  }

  pub reap_if_quiet_ok : (w : World State Client) → (reap_if_quiet R w).0 ≡ ok tt
  unfolding reap_if_quiet
  reap_if_quiet_ok w = elim (Bool-cases (ltb w.clock (w.self.last_activity + waiter_reap_quiet))) [
    | inl recent ↦ rw recent
    | inr quiet ↦ elim (Bool-cases w.self.reap_lock) [
      | inl held ↦ rw (quiet, held)
      | inr free ↦ simp (quiet, free) (reap_locked_ok w)
    ]
  ]

  -- A pop that returns without an entry has waited its time out.
  pub pop_waits :
      (queue : Text) (wait : ℕ) (w : World State Client)
      → (pop R (queue ∷ []) wait w).0 ≡ ok none
      → w.clock + wait ≤ (pop R (queue ∷ []) wait w).1.clock
  unfolding pop wait_out
  pop_waits queue wait w h =
      waits (round_trip (brpop R (queue ∷ [])) w).0 (round_trip (brpop R (queue ∷ [])) w).1 h
        ((Forward-round_trip (brpop R (queue ∷ []))).at w)
    where
      waits :
          (r : Result (Option (Text × Text))) (v : World State Client)
          → (continue r (wait_out R wait) v).0 ≡ ok none
          → w.clock ≤ v.clock
          → w.clock + wait ≤ (continue r (wait_out R wait) v).1.clock
      waits (ok none) v h le = ground (arith, h, le)
      waits (ok (some x)) v h le = cc
      waits (err e) v h le = cc

  long_enough : (wait : ℕ) → 1000 ≤ wait → ltb wait 1000 ≡ false
  long_enough wait h = ground arith

  -- A pop that waits a millisecond or more comes back: what it raises comes from the connection.
  pub pop_fails :
      (queue : Text) (wait : ℕ) (w : World State Client)
      → 1000 ≤ wait
      → (pop R (queue ∷ []) wait w).0 ≢ err unfinished
  unfolding pop wait_out
  pop_fails queue wait w long =
      raises (round_trip (brpop R (queue ∷ [])) w).0 (round_trip (brpop R (queue ∷ [])) w).1
        (round_trip_raises (brpop R (queue ∷ [])) w)
    where
      raises :
          (r : Result (Option (Text × Text))) (v : World State Client)
          → r ≢ err unfinished
          → (continue r (wait_out R wait) v).0 ≢ err unfinished
      raises (ok none) v h e = cc (long_enough wait long, e)
      raises (ok (some x)) v h e = cc
      raises (err x) v h e = h (ground arith)
