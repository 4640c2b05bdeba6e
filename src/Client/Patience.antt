-- ===== src/Client/Patience.antt =====
-- When `_await_response` of client.py gives up.
use anycall.Prelude.{ℕ, zero, suc, ◌+◌, ◌≤◌, ◌≡◌, refl, Option, none, some, [], ◌∷◌, arith}
use anycall.Prelude.Int.{ℤ, pos}
use anycall.Text.{Text}
use anycall.Errors.{Result, ok, err}
use anycall.Redis.{Redis}
use anycall.Exec.{World, Exec, pure, continue, ◌>>=◌}
use anycall.Adapter.{pop}
use anycall.Client.{
  Client, next_slice, deadline_of, reap_if_quiet, received, wait_rounds, await_response,
}
use anycall.Client.Waiting.{goes_on}

next_slice_over : (deadline now : ℕ) → next_slice (some deadline) now ≡ none → deadline ≤ now
unfolding next_slice
next_slice_over deadline now h = ground arith

module _ (R : Redis) where
  open R use {State}

  module _ (queue : Text) (deadline : ℕ) where
    gave_up_after :
        (again : Exec State Client (Option Text)) (r : Result (Option (Text × Text)))
        (v : World State Client)
        → ((v' : World State Client) → (again v').0 ≡ ok none → deadline ≤ (again v').1.clock)
        → (continue r (λ popped. received R popped again) v).0 ≡ ok none
        → deadline ≤ (continue r (λ popped. received R popped again) v).1.clock
    unfolding received
    gave_up_after again (ok none) v next h =
        rw (goes_on R again v) (next (reap_if_quiet R v).1 (rw⁻¹ (goes_on R again v) h))
    gave_up_after again (ok (some (k, x))) v next h = cc
    gave_up_after again (err e) v next h = cc

    gave_up_round :
        (slice : Option ℕ) (again : Exec State Client (Option Text)) (w : World State Client)
        → (slice ≡ none → deadline ≤ w.clock)
        → ((v : World State Client) → (again v).0 ≡ ok none → deadline ≤ (again v).1.clock)
        → let step = elim slice as (λ _. Result (Option Text) × World State Client) [
          | none ↦ pure none w
          | some wait ↦ (do popped ← pop R (queue ∷ []) wait; received R popped again) w
        ] in
          step.0 ≡ ok none → deadline ≤ step.1.clock
    gave_up_round none again w over next h = over refl
    gave_up_round (some wait) again w over next h =
        gave_up_after again (pop R (queue ∷ []) wait w).0 (pop R (queue ∷ []) wait w).1 next h

    wait_rounds_patient :
        (rounds : ℕ) (w : World State Client)
        → (wait_rounds R rounds queue (some deadline) w).0 ≡ ok none
        → deadline ≤ (wait_rounds R rounds queue (some deadline) w).1.clock
    unfolding wait_rounds
    wait_rounds_patient zero w h = cc
    wait_rounds_patient (suc rounds) w h =
        gave_up_round (next_slice (some deadline) w.clock) _ w (next_slice_over deadline w.clock)
          (wait_rounds_patient rounds) h

  timed_wait_patient :
      (rounds n : ℕ) (timeout : ℤ) (queue : Text) (w : World State Client)
      → timeout ≡ pos (suc n)
      → let wait = wait_rounds R rounds queue (deadline_of timeout w.clock) w in
        wait.0 ≡ ok none → w.clock + suc n ≤ wait.1.clock
  unfolding deadline_of
  timed_wait_patient rounds n timeout queue w positive =
      rw positive (wait_rounds_patient queue (w.clock + suc n) rounds w)

  -- A call with a positive timeout that comes back without a response has waited at least its
  -- timeout.
  pub await_response_patient :
      (rounds n : ℕ) (queue : Text) (w : World State Client)
      → w.self.timeout ≡ pos (suc n)
      → (await_response R rounds queue w).0 ≡ ok none
      → w.clock + suc n ≤ (await_response R rounds queue w).1.clock
  unfolding await_response
  await_response_patient rounds n queue w = timed_wait_patient rounds n w.self.timeout queue w
