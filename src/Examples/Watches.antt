-- ===== src/Examples/Watches.antt =====
-- Runs of the theorems on the visualizer.
use anycall.Prelude.{
  ◌≡◌, refl, arith, Bool, true, false, none, some, List, [], ◌∷◌, All, is_some, if◌then◌else◌,
}
use anycall.Prelude.Int.{sub_ℕ, pos}
use anycall.Text.{Text, codes}
use anycall.Assoc.{lookup, canonical, lookup-canonical, canonical-Distinct}
use anycall.Client.{deadline_of, next_slice}
use anycall.Errors.{ok, err, redis_error}
use anycall.Queues.{inflight_key, heartbeat_key, heartbeat_ttl_seconds}
use anycall.Redis.{contains}
use anycall.Redis.Memory.{Memory, memory, stored}
use anycall.Exec.{World, alone, round_trip, lost, cut}
use anycall.Adapter.{micros}
use anycall.Visualizer.{ServerInfo, InflightInfo, Snapshot, Poller, View, new_poller, list}
use anycall.Visualizer.Rows.{server_ids, dict_of}
use anycall.Visualizer.Collect.{collect_live, collect_snapshot}
use anycall.Visualizer.Activity.{messages, inflight_before, by_request}
use anycall.Visualizer.Thread.{is_redis_error, poll_round}
use anycall.Visualizer.Alive.{Fits, Owns, request_ids, told, collect_live_lem}
use anycall.Visualizer.Told.{filter, about, a_request}
use anycall.Visualizer.Told.Requests.{fate, request_told}
use anycall.Visualizer.Polls.{opened, after_loss, poll_round_raised}
use anycall.Core.{make_client}
use anycall.Core.Patient.{InTime, waits_below_socket_timeout}
use anycall.Examples.{echo, id_1, id_2, dead, live, crashed, describe, format}

-- A view of the Redis in memory, with no streams and no subscribers.
abbrev pub view : View memory
view = record {
  info = λ s. record { redis_version = none; connected_clients = some 1; used_memory_human = none };
  scan = λ prefix s. [];
  key_exists = λ k s. true;
  key_type = λ k s. codes "list";
  lrange_last = λ k n s. s.lists k;
  xlen = λ k s. 0;
  xrange = λ k n s. [];
  zscores = λ k s. canonical (s.zsets k);
  numsub = λ channels s. [];
  zscores_value = λ k m s. lookup-canonical m (s.zsets k);
  zscores_distinct = λ k s. canonical-Distinct (s.zsets k);
}

abbrev pub a_poller : Poller
a_poller = new_poller (codes "redis://localhost") 1000000

-- One server is dead for Redis's clock, as the request it took is an orphan.
abbrev pub later_on : Memory
later_on = record crashed { now = 100000001 }

collect_live_lem_example :
    (servers : List ServerInfo) × (inflight : List InflightInfo) × ((collect_live memory view
        (alone later_on 7 a_poller)).0
      ≡ ok (servers, inflight))
    × ((id : Text)
        → contains id (server_ids servers)
          ≡ contains id (
              memory.zrangebyscore heartbeat_key
                (sub_ℕ 100000001 (micros heartbeat_ttl_seconds))
                later_on))
    × ((id : Text)
        → contains id (request_ids inflight) ≡ is_some ((stored later_on).hash inflight_key id))
    × All (Owns ((stored later_on).hash inflight_key)) inflight
    × All (Fits (server_ids servers) (told memory view later_on a_poller servers)) inflight
collect_live_lem_example = collect_live_lem memory view later_on 7 a_poller

abbrev row : Text → Text → Bool → InflightInfo
row id owner alive = record { request_id = id; owner = owner; owner_alive = alive; reap = none }

abbrev at_server : Text → ServerInfo
at_server id = record { server_id = id; last_heartbeat = 5; age = 1 }

abbrev shot : List ServerInfo → List InflightInfo → Snapshot
shot servers inflight = record {
  connected = true;
  taken_at = 9;
  redis_uri = codes "redis://localhost";
  methods = record { name = echo; backlog = 3; kind = list; entries = []; listeners = 1 } ∷ [];
  servers = servers;
  inflight = inflight;
  inflight_responses = 0;
  redis_version = codes "7";
  connected_clients = 2;
  used_memory_human = codes "1M";
  error = none;
}

abbrev both_up : Snapshot
both_up = shot (at_server dead ∷ at_server live ∷ []) (row id_1 dead true ∷ row id_2 live true ∷ [])

abbrev one_gone : Snapshot
one_gone = shot (at_server live ∷ []) (row id_1 dead false ∷ [])

request_told_example :
    filter (λ m. about m (a_request id_1)) (messages (some both_up) one_gone)
    ≡ fate id_1
        (lookup id_1 (inflight_before (some both_up)))
        (lookup id_1 (dict_of [] (by_request one_gone.inflight)))
request_told_example = request_told id_1 (some both_up) one_gone

-- The connection is lost as the first command is sent.
abbrev cut_off : World Memory Poller
cut_off = record (alone crashed 5 (record a_poller { prev = some both_up })) {
  turns = record { others = λ s. s; elapsed = 4; fault = cut 0 lost } ∷ [];
}

abbrev reached : World Memory Poller
reached = record cut_off { clock = 9; turns = []; self = record cut_off.self { has_client = true } }

collection_raises :
    collect_snapshot memory view format
      (λ t. t)
      (opened memory view format (λ t. t) describe cut_off)
    ≡ (err redis_error, reached)
unfolding collect_snapshot round_trip
collection_raises = refl

poll_round_raised_example : poll_round memory view format (λ t. t) describe cut_off ≡ (
    if is_redis_error redis_error
    then (ok tt, after_loss memory view format (λ t. t) describe redis_error reached)
    else (err redis_error, reached))
poll_round_raised_example =
    poll_round_raised memory view format (λ t. t) describe redis_error cut_off reached
      collection_raises

waits_below_socket_timeout_example :
    InTime 30000000 (make_client (pos 40000000) false none 0).socket_timeout
unfolding deadline_of next_slice make_client
waits_below_socket_timeout_example =
    waits_below_socket_timeout (pos 40000000) false none 0 2 5 30000000 (omega arith) refl
