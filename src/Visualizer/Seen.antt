-- ===== src/Visualizer/Seen.antt =====
-- The heartbeats that the poller of poller.py has seen, and the estimates that it counts from the
-- latest of them.
use anycall.Sets.{any}
use anycall.Prelude.{
  ℕ, ◌+◌, ◌≡◌, refl, ◌∙◌, arith, Bool, true, false, ◌||◌, none, some, List, [], ◌∷◌, max,
}
use anycall.Prelude.Int.{pos, sub_ℕ}
use anycall.Text.{Text}
use anycall.Assoc.{lookup, insert}
use anycall.Queues.{heartbeat_ttl_seconds}
use anycall.Adapter.{micros}
use anycall.Client.{waiter_reap_quiet, waiter_reap_slice}
use anycall.Visualizer.{ReapEstimate, server, client}
use anycall.Visualizer.Rows.{fold_seen, or_else}
use anycall.Visualizer.Estimate.{latest_of, estimate_reaping}

-- The latest of some heartbeats.
abbrev pub latest_beat : List (Text × ℕ) → ℕ
latest_beat [] = 0
latest_beat ((name, score) ∷ beats) = max score (latest_beat beats)

-- What an orphan's row tells: is a server alive, was a heartbeat ever seen, when was the latest,
-- and what is the time. Times are in microseconds.
abbrev pub told_estimate : Bool → Bool → ℕ → ℕ → ReapEstimate
told_estimate true seen last now = record {
  by = server;
  earliest = some (pos 0);
  latest = some (pos 2000000);
}
told_estimate false false last now = record { by = client; earliest = none; latest = none }
told_estimate false true last now = record {
  by = client;
  earliest = some (sub_ℕ (last + micros heartbeat_ttl_seconds) now);
  latest =
      some
        (sub_ℕ (last + micros heartbeat_ttl_seconds + waiter_reap_quiet + waiter_reap_slice) now);
}

latest_of-latest_beat :
    (score : ℕ) (beats : List (Text × ℕ)) → latest_of score beats ≡ max score (latest_beat beats)
latest_of-latest_beat score [] = omega arith
latest_of-latest_beat score ((name, other) ∷ beats) =
    omega (arith, latest_of-latest_beat (max score other) beats)

latest_beat-insert :
    (member : Text) (score : ℕ) (seen : List (Text × ℕ))
    → latest_beat (insert member (max score (or_else score (lookup member seen))) seen)
      ≡ max (latest_beat seen) score
unfolding insert lookup
latest_beat-insert member score [] = omega arith
latest_beat-insert member score ((name, other) ∷ seen) =
    ground (arith, latest_beat-insert member score seen)

latest_beat-fold_seen :
    (seen beats : List (Text × ℕ))
    → latest_beat (fold_seen seen beats) ≡ max (latest_beat seen) (latest_beat beats)
unfolding fold_seen
latest_beat-fold_seen seen [] = omega arith
latest_beat-fold_seen seen ((member, score) ∷ beats) =
    let value = max score (or_else score (lookup member seen)) in
    omega (
      arith,
      latest_beat-fold_seen (insert member value seen) beats,
      latest_beat-insert member score seen,
    )

any-insert :
    (member : Text) (score : ℕ) (seen : List (Text × ℕ)) → any (insert member score seen) ≡ true
unfolding insert
any-insert member score [] = refl
any-insert member score ((name, other) ∷ seen) = ground arith

any-fold_seen :
    (seen beats : List (Text × ℕ)) → any (fold_seen seen beats) ≡ (any seen || any beats)
unfolding fold_seen
any-fold_seen seen [] = ground arith
any-fold_seen seen ((member, score) ∷ beats) =
    let value = max score (or_else score (lookup member seen)) in
    ground (arith, any-fold_seen (insert member value seen) beats, any-insert member value seen)

estimate_reaping_lem :
    (alive : Bool) (seen : List (Text × ℕ)) (now : ℕ)
    → estimate_reaping alive seen now ≡ told_estimate alive (any seen) (latest_beat seen) now
unfolding estimate_reaping
estimate_reaping_lem true seen now = refl
estimate_reaping_lem false [] now = refl
estimate_reaping_lem false ((name, score) ∷ seen) now = rw (latest_of-latest_beat score seen) refl

pub estimate_reaping-fold_seen :
    (alive : Bool) (seen beats : List (Text × ℕ)) (now : ℕ)
    → estimate_reaping alive (fold_seen seen beats) now
      ≡ told_estimate alive (any seen || any beats) (max (latest_beat seen) (latest_beat beats)) now
estimate_reaping-fold_seen alive seen beats now =
    estimate_reaping_lem alive (fold_seen seen beats) now
    ∙ rw (any-fold_seen seen beats, latest_beat-fold_seen seen beats) refl
