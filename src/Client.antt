-- ===== src/Client.antt =====
-- implementations/python/lib/src/anycall/client.py: `AnyCallClientImpl`, its state and its waiting.
-- Times are in microseconds.
pub mod Decode
pub mod Call
pub mod Steps
pub mod Waiting
pub mod Patience
pub mod Quiet
pub mod Answers
pub mod Guards
pub mod Prompt
use anycall.Prelude.{
  ℕ, zero, suc, ◌+◌, ◌-◌, min, max, Bool, true, false, Option, none, some, List, [], ◌∷◌, ltb, leb,
  if◌then◌else◌,
}
use anycall.Prelude.Int.{ℤ, pos, negsuc}
use anycall.Text.{Text}
use anycall.Errors.{unfinished}
use anycall.Registry
use anycall.Registry.{TypeRegistry}
use anycall.Queues.{inflight_key, heartbeat_key, heartbeat_ttl_seconds}
use anycall.Redis.{Redis}
use anycall.Exec.{Exec, pure, raise, catch, monotonic, gets, modify, ◌>>=◌, ◌>>◌}
use anycall.Adapter.{micros, pop, inflight_owners, alive_members}
use anycall.Reaping.{reap_orphans}

abbrev pub waiter_reap_slice : ℕ
waiter_reap_slice = 30000000

abbrev pub waiter_reap_quiet : ℕ
waiter_reap_quiet = 30000000

-- `AnyCallClientImpl`: its properties, registry and default, and what its calls share for reaping.
pub record Client : Type 0 where
  pub timeout : ℤ
  pub registry : TypeRegistry
  pub default_max_queue_depth : Option ℤ
  pub last_activity : ℕ
  pub reap_lock : Bool

-- `__init__`, at a monotonic time
abbrev pub new_client : ℤ → Option ℤ → ℕ → Client
new_client timeout depth now = record {
  timeout = timeout;
  registry = Registry.empty;
  default_max_queue_depth = depth;
  last_activity = now;
  reap_lock = false;
}

abbrev pub saw_activity : ℕ → Client → Client
saw_activity now c = record c { last_activity = now }

abbrev pub with_lock : Bool → Client → Client
with_lock held c = record c { reap_lock = held }

-- `deadline` of `_await_response`: none if the timeout is not positive
unfoldable pub deadline_of : ℤ → ℕ → Option ℕ
deadline_of (pos zero) now = none
deadline_of (pos (suc n)) now = some (now + suc n)
deadline_of (negsuc n) now = none

-- The next slice to wait, or none if the time is up. BRPOP takes 0 as "forever", so a slice is at
-- least a millisecond.
unfoldable pub next_slice : Option ℕ → ℕ → Option ℕ
next_slice none now = some waiter_reap_slice
next_slice (some deadline) now =
    if leb deadline now then none else some (max (min waiter_reap_slice (deadline - now)) 1000)

module _ (R : Redis) where
  open R use {State}

  -- The body of the `try` in `_reap_if_quiet`.
  unfoldable pub reap_owned : List (Text × Text) → Exec State Client (Unit {0})
  reap_owned [] = pure tt
  reap_owned (entry ∷ owners) = do
    alive ← alive_members R heartbeat_key heartbeat_ttl_seconds
    reap_orphans R (entry ∷ owners) alive

  -- The lock is taken here; `finally` notes the time and gives it back.
  unfoldable pub reap_locked : Exec State Client (Unit {0})
  unfolding reap_owned
  reap_locked = do
    modify (with_lock true)
    catch (do owners ← inflight_owners R inflight_key; reap_owned owners) (λ e. pure tt)
    now ← monotonic
    modify (saw_activity now)
    modify (with_lock false)

  unfoldable pub reap_if_quiet : Exec State Client (Unit {0})
  reap_if_quiet = do
    now ← monotonic
    client ← gets (λ c. c)
    if ltb now (client.last_activity + waiter_reap_quiet)
        then pure tt
        else if client.reap_lock
        then pure tt
        else reap_locked

  unfoldable pub received :
      Option (Text × Text) → Exec State Client (Option Text) → Exec State Client (Option Text)
  received (some (key, value)) again = do
    now ← monotonic
    modify (saw_activity now)
    pure (some value)
  received none again = reap_if_quiet >> again

  -- The loop of `_await_response`, for at most `rounds` rounds.
  unfoldable pub wait_rounds : ℕ → Text → Option ℕ → Exec State Client (Option Text)
  unfolding received
  wait_rounds zero queue deadline w = raise unfinished w
  wait_rounds (suc rounds) queue deadline w = elim (next_slice deadline w.clock) [
    | none ↦ pure none w
    | some wait ↦
        (do popped ← pop R (queue ∷ []) wait; received popped (wait_rounds rounds queue deadline)) w
  ]

  unfoldable pub await_response : ℕ → Text → Exec State Client (Option Text)
  await_response rounds queue = do
    timeout ← gets (λ c. c.timeout)
    now ← monotonic
    wait_rounds rounds queue (deadline_of timeout now)
