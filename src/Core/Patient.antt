-- ===== src/Core/Patient.antt =====
-- The socket timeout of a client of core.py, and how long a call of it waits at a time.
use anycall.Prelude.{ℕ, zero, suc, ◌+◌, ◌≤◌, ◌<◌, ◌≡◌, arith, Bool, Option, none, some}
use anycall.Prelude.Int.{ℤ, pos, negsuc}
use anycall.Client.{deadline_of, next_slice}
use anycall.Core.{client_socket_timeout, make_client, socket_timeout_margin}

-- A read that takes `waited` is within the timeout.
abbrev pub InTime : ℕ → Option ℕ → Type 0
InTime waited none = Unit
InTime waited (some limit) = waited < limit

next_slice_bound :
    (sent n now slice : ℕ)
    → sent ≤ now
    → next_slice (some (sent + suc n)) now ≡ some slice
    → slice < suc n + socket_timeout_margin
unfolding next_slice
next_slice_bound sent n now slice le h = ground (arith, le)

-- Every slice that a call waits for its response is shorter than the socket timeout of its client,
-- if there is one.
pub waits_below_socket_timeout :
    (timeout : ℤ) (metrics_enabled : Bool) (depth : Option ℤ) (created sent now slice : ℕ)
    → sent ≤ now
    → next_slice
        (deadline_of (make_client timeout metrics_enabled depth created).client.timeout sent)
        now
      ≡ some slice
    → InTime slice (make_client timeout metrics_enabled depth created).socket_timeout
unfolding make_client client_socket_timeout deadline_of
waits_below_socket_timeout (pos zero) metrics_enabled depth created sent now slice le h = tt
waits_below_socket_timeout (pos (suc n)) metrics_enabled depth created sent now slice le h =
    next_slice_bound sent n now slice le h
waits_below_socket_timeout (negsuc n) metrics_enabled depth created sent now slice le h = tt
