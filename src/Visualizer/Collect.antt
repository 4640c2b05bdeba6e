-- ===== src/Visualizer/Collect.antt =====
-- The collection of a snapshot in poller.py, one command a time.
use anycall.Sets.{any}
use anycall.Prelude.{ℕ, true, Option, none, some, List, [], ◌∷◌, length, if◌then◌else◌}
use anycall.Text.{Text, codes, ◌==◌}
use anycall.Json.{Json}
use anycall.Queues.{inflight_key, heartbeat_key, request_queue_prefix, response_queue_prefix}
use anycall.Redis.{Redis}
use anycall.Exec.{Exec, pure, lift, modify, gets, monotonic, round_trip, ◌>>=◌, ◌>>◌}
use anycall.Visualizer.{
  MethodInfo, ServerInfo, InflightInfo, Snapshot, Poller, View, list, stream, entry_peek_count,
}
use anycall.Visualizer.Rows.{
  list_entries, stream_entries, reverse_onto, fold_seen, live_servers, by_id, owned, by_owner,
  with_estimates, server_ids, wake_channels, or_else, dict_of, with_listeners,
}
use anycall.Visualizer.Sorted.{sorted, text_lt}
use anycall.Visualizer.Preview.{method_name}
use anycall.Visualizer.Estimate.{estimate_reaping}

module _ (R : Redis) (V : View R) where
  open R use {State, time, llen, hgetall}
  open V use {info, scan, key_exists, key_type, lrange_last, xlen, xrange, zscores, numsub}

  -- A command that writes nothing.
  abbrev pub read : {A : Type 0} → (State → A) → Exec State Poller A
  read command = round_trip (λ s. (command s, s))

  module _ (format : Json → Text) (hash : Text → Text) where
    unfoldable pub collect_list_method : Text → Text → Exec State Poller MethodInfo
    collect_list_method queue_key name = do
      backlog ← read (llen queue_key)
      raws ← read (lrange_last queue_key entry_peek_count)
      entries ← lift (list_entries format hash [] (reverse_onto [] raws))
      pure
          (record { name = name; backlog = backlog; kind = list; entries = entries; listeners = 0 })

    unfoldable pub collect_stream_method : Text → Text → Exec State Poller MethodInfo
    collect_stream_method queue_key name = do
      backlog ← read (xlen queue_key)
      raws ← read (xrange queue_key entry_peek_count)
      entries ← lift (stream_entries format hash [] raws)
      pure (record {
        name = name;
        backlog = backlog;
        kind = stream;
        entries = entries;
        listeners = 0;
      })

    unfoldable pub of_type : Text → Text → Exec State Poller (Option MethodInfo)
    unfolding collect_list_method collect_stream_method
    of_type queue_key key_type =
        if key_type == codes "list"
        then (do m ← collect_list_method queue_key (method_name queue_key); pure (some m))
        else if key_type == codes "stream"
        then (do m ← collect_stream_method queue_key (method_name queue_key); pure (some m))
        else pure none

    unfoldable pub collect_method : Text → Exec State Poller (Option MethodInfo)
    collect_method queue_key = do
      there ← read (key_exists queue_key)
      (if there then (read (key_type queue_key) >>= of_type queue_key) else pure none)

    unfoldable pub collect_methods : List Text → Exec State Poller (List MethodInfo)
    collect_methods [] = pure []
    collect_methods (queue_key ∷ queue_keys) = do
      found ← collect_method queue_key
      rest ← collect_methods queue_keys
      pure (elim found [ none ↦ rest | some m ↦ m ∷ rest ])

  unfoldable pub collect_listeners : List MethodInfo → Exec State Poller (List MethodInfo)
  collect_listeners [] = pure []
  collect_listeners (m ∷ ms) = do
    counts ← read (numsub (wake_channels (m ∷ ms)))
    pure (with_listeners (dict_of [] counts) (m ∷ ms))

  unfoldable pub collect_servers : Exec State Poller (List ServerInfo × ℕ)
  collect_servers = do
    now ← read time
    members ← read (zscores heartbeat_key)
    modify (λ p. record p { last_seen = fold_seen p.last_seen members })
    pure (sorted by_id (live_servers now members), now)

  unfoldable pub collect_inflight : List Text → Exec State Poller (List InflightInfo)
  collect_inflight alive = do
    owners ← read (hgetall inflight_key)
    pure (sorted by_owner (owned alive owners))

  -- The servers and the requests in flight, with the estimates of the orphans.
  unfoldable pub collect_live : Exec State Poller (List ServerInfo × List InflightInfo)
  collect_live = do
    seen ← collect_servers
    inflight ← collect_inflight (server_ids seen.0)
    last_seen ← gets (λ p. p.last_seen)
    pure (seen.0, with_estimates (estimate_reaping (any seen.0) last_seen seen.1) inflight)

  module _ (format : Json → Text) (hash : Text → Text) where
    unfoldable pub collect_snapshot : Exec State Poller Snapshot
    collect_snapshot = do
      about ← read info
      keys ← read (scan request_queue_prefix)
      found ← collect_methods format hash (sorted text_lt keys)
      methods ← collect_listeners found
      responses ← read (scan response_queue_prefix)
      taken_at ← monotonic
      live ← collect_live
      redis_uri ← gets (λ p. p.redis_uri)
      pure (record {
        connected = true;
        taken_at = taken_at;
        redis_uri = redis_uri;
        methods = methods;
        servers = live.0;
        inflight = live.1;
        inflight_responses = length responses;
        redis_version = or_else (codes "?") about.redis_version;
        connected_clients = or_else 0 about.connected_clients;
        used_memory_human = or_else (codes "?") about.used_memory_human;
        error = none;
      })
