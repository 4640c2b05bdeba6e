-- ===== src/Visualizer/Estimate.antt =====
-- `estimate_reaping` of poller.py.
use anycall.Prelude.{ℕ, ◌+◌, Bool, true, false, none, some, List, [], ◌∷◌, max}
use anycall.Prelude.Int.{pos, sub_ℕ}
use anycall.Text.{Text}
use anycall.Queues.{heartbeat_ttl_seconds}
use anycall.Adapter.{micros}
use anycall.Client.{waiter_reap_quiet, waiter_reap_slice}
use anycall.Visualizer.{ReapEstimate, server, client, heartbeat_period_seconds}

-- `max` of the values of a dict that is not empty
abbrev pub latest_of : ℕ → List (Text × ℕ) → ℕ
latest_of score [] = score
latest_of score ((name, other) ∷ seen) = latest_of (max score other) seen

unfoldable pub estimate_reaping : Bool → List (Text × ℕ) → ℕ → ReapEstimate
estimate_reaping true last_seen now = record {
  by = server;
  earliest = some (pos 0);
  latest = some (pos (micros heartbeat_period_seconds));
}
estimate_reaping false [] now = record { by = client; earliest = none; latest = none }
estimate_reaping false ((name, score) ∷ seen) now =
    let last = latest_of score seen in
    record {
      by = client;
      earliest = some (sub_ℕ (last + micros heartbeat_ttl_seconds) now);
      latest =
          some (
            sub_ℕ (last + micros heartbeat_ttl_seconds + waiter_reap_quiet + waiter_reap_slice)
              now);
    }
