-- ===== src/Client/Quiet.antt =====
-- When a waiting call of client.py reaps: `_reap_if_quiet`.
use anycall.Prelude.{ℕ, ◌+◌, ◌<◌, ◌≤◌, ◌≡◌, refl, arith, true, false, ltb}
use anycall.Errors.{ok}
use anycall.Redis.{Redis}
use anycall.Queues.{inflight_key}
use anycall.Exec.{World, ◌>>=◌}
use anycall.Exec.Caught.{catch_ok}
use anycall.Adapter.{inflight_owners}
use anycall.Client.{Client, waiter_reap_quiet, with_lock, reap_owned, reap_locked, reap_if_quiet}

recent : (now last : ℕ) → now < last + waiter_reap_quiet → ltb now (last + waiter_reap_quiet) ≡ true
recent now last h = ground arith

long_ago :
    (now last : ℕ) → last + waiter_reap_quiet ≤ now → ltb now (last + waiter_reap_quiet) ≡ false
long_ago now last h = ground arith

module _ (R : Redis) where
  open R use {State}

  -- Within 30 seconds of a sign of a server a waiting call asks Redis nothing and changes nothing.
  pub busy_client_waits :
      (w : World State Client)
      → w.clock < w.self.last_activity + waiter_reap_quiet
      → reap_if_quiet R w ≡ (ok tt, w)
  unfolding reap_if_quiet
  busy_client_waits w h = rw (recent w.clock w.self.last_activity h)

  locked_leaves :
      (w : World State Client)
      → let w' = (reap_locked R w).1 in
        (w'.self.reap_lock ≡ false) × (w'.self.last_activity ≡ w'.clock)
  unfolding reap_locked
  locked_leaves w =
      rw
        (catch_ok (inflight_owners R inflight_key >>= reap_owned R)
          (record w { self = with_lock true w.self }))
        (refl, refl)

  reaps :
      (w : World State Client)
      → w.self.reap_lock ≡ false
      → w.self.last_activity + waiter_reap_quiet ≤ w.clock
      → reap_if_quiet R w ≡ reap_locked R w
  unfolding reap_if_quiet
  reaps w free h = simp (long_ago w.clock w.self.last_activity h, free)

  -- When a quiet client whose lock is free reaps, whatever fails, the lock is free after it and
  -- reaping again at once changes nothing.
  pub reaping_is_spaced :
      (w : World State Client)
      → w.self.reap_lock ≡ false
      → w.self.last_activity + waiter_reap_quiet ≤ w.clock
      → let w' = (reap_if_quiet R w).1 in
        (w'.self.reap_lock ≡ false) × (reap_if_quiet R w' ≡ (ok tt, w'))
  reaping_is_spaced w free h = rw (reaps w free h) (
    (locked_leaves w).0,
    busy_client_waits (reap_locked R w).1 (omega (arith, (locked_leaves w).1)),
  )
