-- ===== src/Examples/Serves.antt =====
-- Runs of the theorems on a server.
use anycall.Prelude.{◌≡◌, refl, arith, true, none, some, [], ◌∷◌}
use anycall.Text.{Text, codes}
use anycall.Json.{str}
use anycall.Errors.{ok}
use anycall.Serialization.{request, serialize, deserialize}
use anycall.Queues.{inflight_key, response_queue}
use anycall.Redis.Memory.{Memory, memory, stored}
use anycall.Exec.{World, lost, cut, alone}
use anycall.Server.{MethodHandler, Job, Server, server_with, set_limiter}
use anycall.Server.Limiter.{new_limiter}
use anycall.Server.Invoke.{read_request, request_type}
use anycall.Server.Requests.{process_request, process_message}
use anycall.Server.Answering.{answered_with, told_caller, outcome, request_answered}
use anycall.Server.Slots.{freed, job_gives_back}
use anycall.Server.Ticks.{responses_after, owner_after, tick_fails_back_the_dead}
use anycall.Server.Loops.{heartbeat_tick, emit_heartbeats}
use anycall.Server.Rounds.{emit_heartbeats_ok}
use anycall.Client.Decode.{dict_type}
use anycall.Serialization.Wire.{request_text, request_wire}
use anycall.Examples.{echo, id_1, live, crashed, a_request, no_dacite, describe, format}

-- A method that returns its argument.
abbrev echoes : MethodHandler
echoes = record {
  method = λ context argument. ok argument;
  parameter_type = dict_type;
  max_concurrency = 1;
}

-- It is registered on a server with a cap of 2.
abbrev a_server : Server
a_server = record (server_with live (some 0) 2) {
  running = true;
  method_handlers = (echo, echoes) ∷ [];
  method_limiters = (echo, 1) ∷ [];
  limiters = set_limiter 1 (new_limiter 1) (λ i. new_limiter 2);
  next_limiter = 2;
}

a_request-read : read_request no_dacite (request_text a_request) ≡ ok a_request
unfolding read_request serialize
a_request-read =
    let wire : deserialize no_dacite (str (request_text a_request)) request_type
        ≡ ok (request a_request) =
      request_wire no_dacite request_type a_request refl (omega arith, omega arith, omega arith) in
    rw wire

request_answered_example :
    let (result, w) =
      process_request no_dacite describe format memory echoes
        (request_text a_request)
        id_1
        (alone crashed 5 a_server) in
    (result ≡ ok tt)
    × (w.self.in_flight_request_ids ≡ [])
    × (stored w.redis
        ≡ answered_with id_1
            (told_caller no_dacite describe format memory id_1 (
              outcome no_dacite describe format memory echoes id_1
                (str (codes "echo"))
                (str (codes "{}"))))
            id_1
            (stored crashed))
request_answered_example =
    request_answered no_dacite describe format memory echoes (request_text a_request) id_1 id_1
      (str (codes "echo")) (str (codes "{}")) crashed 5 a_server a_request-read tt

-- The connection is lost as the response is pushed.
abbrev unlucky : World Memory Server
unlucky = record {
  redis = crashed;
  clock = 5;
  turns = record { others = λ s. s; elapsed = 3; fault = cut 1 lost } ∷ [];
  self = a_server;
}

abbrev a_job : Job
a_job = record {
  request_json = codes "{";
  acquired_id = id_1;
  handler = echoes;
  method_limiter = some 1;
}

job_gives_back_example :
    let (r, v) = process_message no_dacite describe format memory a_job unlucky in
    (r ≡ ok tt)
    × (v.self.rung ≡ true)
    × (v.self.limiters ≡ freed (some 1) (freed (some 0) a_server.limiters))
job_gives_back_example = job_gives_back no_dacite describe format memory a_job unlucky

-- No method is registered.
abbrev bare : World Memory Server
bare = alone crashed 5 (server_with live none 0)

emit_heartbeats_ok_example : (emit_heartbeats memory 3 unlucky).0 ≡ ok tt
emit_heartbeats_ok_example = emit_heartbeats_ok memory 3 unlucky

-- One of the two owners has been silent for a TTL.
tick_fails_back_the_dead_example :
    let (r, w) = heartbeat_tick memory (alone crashed 5 a_server) in
    (r ≡ ok tt)
    × ((id : Text)
        → let owner = (stored crashed).hash inflight_key id in
          ((stored w.redis).list (response_queue id)
            ≡ responses_after live 100000000 (stored crashed) id owner)
          × ((stored w.redis).hash inflight_key id
              ≡ owner_after live 100000000 (stored crashed) owner))
tick_fails_back_the_dead_example = tick_fails_back_the_dead memory crashed 5 a_server
