-- ===== src/Visualizer/Thread.antt =====
-- `PollerThread` of poller.py. The loop of `run` is given how long each of its waits takes.
use anycall.Prelude.{ℕ, ◌+◌, Bool, true, false, some, List, [], ◌∷◌, if◌then◌else◌}
use anycall.Text.{Text}
use anycall.Json.{Json}
use anycall.Errors.{Exn, redis_error, redis_timeout, ok}
use anycall.Redis.{Redis}
use anycall.Exec.{Exec, pure, raise, catch, modify, gets, monotonic, ◌>>=◌, ◌>>◌}
use anycall.Visualizer.{Snapshot, Poller, View}
use anycall.Visualizer.Activity.{diff}
use anycall.Visualizer.Collect.{collect_snapshot}

abbrev pub failed : Text → ℕ → Text → Snapshot
failed redis_uri taken_at e = record {
  connected = false;
  taken_at = taken_at;
  redis_uri = redis_uri;
  methods = [];
  servers = [];
  inflight = [];
  inflight_responses = 0;
  redis_version = [];
  connected_clients = 0;
  used_memory_human = [];
  error = some e;
}

-- `redis.exceptions.RedisError` has the connection's errors and timeouts.
unfoldable pub is_redis_error : Exn → Bool
is_redis_error redis_error = true
is_redis_error redis_timeout = true
is_redis_error e = false

module _ (R : Redis) (V : View R) (format : Json → Text) (hash : Text → Text)
    (describe : Exn → Text) where
  open R use {State}

  unfoldable pub on_error : Exn → Exec State Poller Snapshot
  on_error e =
      if is_redis_error e
      then (do
        modify (λ p. record p { has_client = false })
        taken_at ← monotonic
        redis_uri ← gets (λ p. p.redis_uri)
        pure (failed redis_uri taken_at (describe e)))
      else raise e

  unfoldable pub poll_once : Exec State Poller Snapshot
  poll_once =
      catch (do modify (λ p. record p { has_client = true }); collect_snapshot R V format hash)
        on_error

  -- One turn of the loop of `run`, before it waits.
  unfoldable pub poll_round : Exec State Poller (Unit {0})
  poll_round = do
    snapshot ← poll_once
    modify (λ p.
        let (events, prev) = diff snapshot p.prev in
        record p { prev = prev; emitted = (snapshot, events) ∷ p.emitted })

  unfoldable pub run : List ℕ → Exec State Poller (Unit {0})
  run [] = pure tt
  run (waited ∷ waits) = do
    stopping ← gets (λ p. p.stopping)
    (if stopping
        then pure tt
        else (poll_round >> ((λ w. (ok tt, record w { clock = w.clock + waited })) >> run waits)))

abbrev pub stop : Poller → Poller
stop p = record p { stopping = true }
