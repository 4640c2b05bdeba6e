-- ===== src/Visualizer/Polls.antt =====
-- A round of the loop of `PollerThread.run` whose collection raises.
use anycall.Prelude.{
  ℕ, ◌≡◌, refl, arith, Bool, true, false, Option, none, some, List, [], ◌∷◌, if◌then◌else◌, inl,
  inr, Bool-cases,
}
use anycall.Text.{Text}
use anycall.Json.{Json}
use anycall.Errors.{Exn, ok, err}
use anycall.Redis.{Redis}
use anycall.Exec.{World}
use anycall.Visualizer.{Snapshot, Poller, View, Event, lost_connection}
use anycall.Visualizer.Collect.{collect_snapshot}
use anycall.Visualizer.Activity.{diff, messages, connection_messages, methods_messages, stamped}
use anycall.Visualizer.Thread.{failed, is_redis_error, on_error, poll_once, poll_round}

-- Whether the previous poll reached Redis.
abbrev pub was_connected : Option Snapshot → Bool
was_connected none = false
was_connected (some s) = s.connected

-- The events of a snapshot that could not be taken: the loss, where there was a connection.
abbrev pub loss : Snapshot → Option Snapshot → List Event
loss s prev =
    if was_connected prev
    then record { timestamp = s.taken_at; message = lost_connection s.error } ∷ []
    else []

messages-failed :
    (uri : Text) (now : ℕ) (text : Text) (prev : Option Snapshot)
    → stamped now (messages prev (failed uri now text)) ≡ loss (failed uri now text) prev
unfolding messages connection_messages methods_messages
messages-failed uri now text none = refl
messages-failed uri now text (some prev) = ground arith

module _ (R : Redis) (V : View R) (format : Json → Text) (hash : Text → Text)
    (describe : Exn → Text) where
  open R use {State}

  -- The poller as a poll starts, with a client, and after a snapshot that could not be taken.
  abbrev pub opened : World State Poller → World State Poller
  opened w = record w { self = record w.self { has_client = true } }

  abbrev pub after_loss : Exn → World State Poller → World State Poller
  after_loss e w =
      let s = failed w.self.redis_uri w.clock (describe e) in
      record w {
        self = record w.self {
          has_client = false;
          prev = some s;
          emitted = (s, loss s w.self.prev) ∷ w.self.emitted;
        };
      }

  -- If the collection raises an error of redis, the round goes on: the client is dropped, and the
  -- snapshot that is emitted is not connected, with the one event that the connection was lost if
  -- the poll before had one. Any other exception leaves the loop.
  pub poll_round_raised :
      (e : Exn) (w reached : World State Poller)
      → collect_snapshot R V format hash (opened w) ≡ (err e, reached)
      → poll_round R V format hash describe w
        ≡ (if is_redis_error e then (ok tt, after_loss e reached) else (err e, reached))
  unfolding poll_round poll_once on_error diff
  poll_round_raised e w reached h = elim (Bool-cases (is_redis_error e)) [
    | inl lost ↦
        rw
          (
            h,
            lost,
            messages-failed reached.self.redis_uri reached.clock (describe e) reached.self.prev,
          )
          refl
    | inr other ↦ rw (h, other) refl
  ]
