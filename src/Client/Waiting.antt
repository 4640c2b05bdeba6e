-- ===== src/Client/Waiting.antt =====
-- How many rounds `_await_response` of client.py takes.
use anycall.Prelude.{
  ℕ, zero, suc, ◌+◌, ◌*◌, ◌≤◌, ◌<◌, ◌≡◌, ◌≢◌, refl, ◌⊎◌, inl, inr, Option, none, some, [], ◌∷◌,
  arith,
}
use anycall.Prelude.Int.{ℤ, pos}
use anycall.Text.{Text}
use anycall.Errors.{unfinished, Result, ok, err}
use anycall.Redis.{Redis}
use anycall.Exec.{World, Exec, pure, continue, ◌>>=◌}
use anycall.Adapter.{pop}
use anycall.Client.{
  Client, waiter_reap_slice, next_slice, deadline_of, reap_if_quiet, received, wait_rounds,
  await_response,
}
use anycall.Client.Steps.{reap_if_quiet-Forward, reap_if_quiet_ok, pop_waits, pop_fails}

-- A slice is no shorter than the time that is left, or than a whole slice.
next_slice_long :
    (deadline now wait : ℕ)
    → next_slice (some deadline) now ≡ some wait
    → (now < deadline) × ((deadline ≤ now + wait) ⊎ (waiter_reap_slice ≤ wait)) × (1000 ≤ wait)
unfolding next_slice
next_slice_long deadline now wait h = ground arith

module _ (R : Redis) where
  open R use {State}

  -- After an empty pop the loop goes on from the world that the reaping left.
  pub goes_on :
      (again : Exec State Client (Option Text)) (v : World State Client)
      → (received R none again v) ≡ again (reap_if_quiet R v).1
  unfolding received
  goes_on again v = rw (reap_if_quiet_ok R v)

  module _ (queue : Text) (deadline : ℕ) where
    after_pop :
        (again : Exec State Client (Option Text)) (clock wait : ℕ)
        (r : Result (Option (Text × Text))) (v : World State Client)
        → r ≢ err unfinished
        → (r ≡ ok none → clock + wait ≤ v.clock)
        → ((v' : World State Client) → clock + wait ≤ v'.clock → (again v').0 ≢ err unfinished)
        → (continue r (λ popped. received R popped again) v).0 ≢ err unfinished
    unfolding received
    after_pop again clock wait (ok none) v honest waits next =
        rw (goes_on again v)
          (next (reap_if_quiet R v).1 (omega (arith, waits refl, (reap_if_quiet-Forward R).at v)))
    after_pop again clock wait (ok (some (k, x))) v honest waits next = λ h. cc
    after_pop again clock wait (err e) v honest waits next = λ h. honest (ground arith)

    round_ends :
        (slice : Option ℕ) (again : Exec State Client (Option Text)) (w : World State Client)
        → ((wait : ℕ) → slice ≡ some wait → 1000 ≤ wait)
        → ((wait : ℕ)
            → slice ≡ some wait
            → (v : World State Client) → w.clock + wait ≤ v.clock
            → (again v).0 ≢ err unfinished)
        → (elim slice as (λ _. Result (Option Text) × World State Client) [
          | none ↦ pure none w
          | some wait ↦ (do popped ← pop R (queue ∷ []) wait; received R popped again) w
        ]).0
          ≢ err unfinished
    round_ends none again w long next = λ h. cc
    round_ends (some wait) again w long next =
        after_pop again w.clock wait (pop R (queue ∷ []) wait w).0 (pop R (queue ∷ []) wait w).1
          (pop_fails R queue wait w (long wait refl)) (pop_waits R queue wait w) (next wait refl)

    wait_rounds_ends :
        (rounds : ℕ) (w : World State Client)
        → deadline ≤ w.clock + rounds * waiter_reap_slice
        → (wait_rounds R (suc rounds) queue (some deadline) w).0 ≢ err unfinished
    unfolding wait_rounds
    wait_rounds_ends zero w h =
        round_ends (next_slice (some deadline) w.clock) _ w
          (λ wait slice. (next_slice_long deadline w.clock wait slice).2)
          (λ wait slice v le e. omega (arith, h, (next_slice_long deadline w.clock wait slice).0))
    wait_rounds_ends (suc rounds) w h =
        round_ends (next_slice (some deadline) w.clock) _ w
          (λ wait slice. (next_slice_long deadline w.clock wait slice).2)
          (λ wait slice v le.
            wait_rounds_ends rounds v
              (less_left wait v.clock le (next_slice_long deadline w.clock wait slice)))
      where
        less_left :
            (wait later : ℕ)
            → w.clock + wait ≤ later
            → (w.clock < deadline)
              × ((deadline ≤ w.clock + wait) ⊎ (waiter_reap_slice ≤ wait))
              × (1000 ≤ wait)
            → deadline ≤ later + rounds * waiter_reap_slice
        less_left wait later le (_, inl all, _) = omega (arith, le, all)
        less_left wait later le (_, inr slice, _) = omega (arith, le, slice, h)

  timed_wait_ends :
      (rounds n : ℕ) (timeout : ℤ) (queue : Text) (w : World State Client)
      → timeout ≡ pos (suc n)
      → suc n ≤ rounds * waiter_reap_slice
      → (wait_rounds R (suc rounds) queue (deadline_of timeout w.clock) w).0 ≢ err unfinished
  unfolding deadline_of
  timed_wait_ends rounds n timeout queue w positive enough =
      rw positive (wait_rounds_ends queue (w.clock + suc n) rounds w (omega (arith, enough)))

  -- A waiting call with a positive timeout of at most `rounds` slices ends within one round more,
  -- whatever the connection and the other processes do.
  pub await_response_ends :
      (rounds n : ℕ) (queue : Text) (w : World State Client)
      → w.self.timeout ≡ pos (suc n)
      → suc n ≤ rounds * waiter_reap_slice
      → (await_response R (suc rounds) queue w).0 ≢ err unfinished
  unfolding await_response
  await_response_ends rounds n queue w = timed_wait_ends rounds n w.self.timeout queue w
