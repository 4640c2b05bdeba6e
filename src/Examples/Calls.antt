-- ===== src/Examples/Calls.antt =====
-- Runs of the theorems on a client's calls.
use anycall.Prelude.{◌≤◌, ◌≡◌, ◌≢◌, refl, false, arith, none, some, [], ◌∷◌, ◌++◌}
use anycall.Prelude.Int.{pos, at_least}
use anycall.Text.{codes, ◌==◌}
use anycall.Assoc.{lookup}
use anycall.Json.{str}
use anycall.Json.Print.{dumps}
use anycall.Errors.{
  unfinished, no_server_available_error, queue_full_error, server_lost_error, ok, err,
}
use anycall.Model.Response
use anycall.Serialization.{plain, serialize}
use anycall.Serialization.Wire.{response_text}
use anycall.Queues.{request_queue, response_queue}
use anycall.Redis.Memory.{Memory, memory, empty_memory}
use anycall.Exec.{World, lost, cut, alone, round_trip}
use anycall.Adapter.{pop, brpop, wait_out}
use anycall.Client.{
  Client, saw_activity, await_response, wait_rounds, next_slice, deadline_of, reap_if_quiet,
  received,
}
use anycall.Client.Waiting.{await_response_ends}
use anycall.Client.Patience.{await_response_patient}
use anycall.Client.Quiet.{reaping_is_spaced}
use anycall.Client.Guards.{call_without_server, call_on_full_queue}
use anycall.Client.Answers.{read_lost}
use anycall.Client.Call.{call_impl}
use anycall.Client.Decode.{dict_type, read_response}
use anycall.Examples.{
  echo, id_1, dead, live, point, crashed, queued, a_client, no_dacite, describe, format,
}

-- The connection works twice and is then lost.
abbrev shaky : World Memory Client
shaky = record {
  redis = crashed;
  clock = 0;
  turns = record { others = λ s. s; elapsed = 7; fault = cut 0 lost } ∷ [];
  self = a_client;
}

await_response_ends_example :
    (await_response memory 3 (response_queue id_1) shaky).0 ≢ err unfinished
await_response_ends_example =
    await_response_ends memory 2 39999999 (response_queue id_1) shaky refl (omega arith)

-- Nobody answers.
abbrev unanswered : World Memory Client
unanswered = alone (empty_memory 0) 0 (record a_client { timeout = pos 5000; last_activity = 0 })

await_response_patient_example :
    5000 ≤ (await_response memory 2 (response_queue id_1) unanswered).1.clock
unfolding await_response wait_rounds next_slice deadline_of pop brpop wait_out round_trip received
    reap_if_quiet
await_response_patient_example =
    await_response_patient memory 2 4999 (response_queue id_1) unanswered refl refl

abbrev idle : World Memory Client
idle = alone crashed 30000000 a_client

reaping_is_spaced_example :
    let w' = (reap_if_quiet memory idle).1 in
    (w'.self.reap_lock ≡ false) × (reap_if_quiet memory w' ≡ (ok tt, w'))
reaping_is_spaced_example = reaping_is_spaced memory idle refl (omega arith)

call_without_server_example :
    call_impl memory no_dacite describe format 3 echo
      (plain point)
      dict_type
      none
      id_1
      (alone queued 0 a_client)
    ≡ (err (no_server_available_error echo), alone queued 0 a_client)
unfolding serialize lookup
call_without_server_example =
    call_without_server memory no_dacite describe format 3 echo (plain point) dict_type none id_1
      (dumps point) queued 0 a_client refl (λ server_id. refl)

-- One request waits, and a server is alive.
abbrev busy : Memory
busy = record queued { zsets = crashed.zsets; now = 100000000 }

abbrev limited : Client
limited = record a_client { default_max_queue_depth = some (pos 1) }

call_on_full_queue_example :
    call_impl memory no_dacite describe format 3 echo
      (plain point)
      dict_type
      none
      id_1
      (alone busy 0 limited)
    ≡ (err (queue_full_error echo 1 (pos 1)), alone busy 0 (saw_activity 0 limited))
unfolding serialize lookup ◌==◌ request_queue at_least
call_on_full_queue_example =
    call_on_full_queue memory no_dacite describe format 3 echo (plain point) dict_type none id_1
      (dumps point) busy 0 limited refl live (pos 1) refl refl refl

read_lost_example :
    read_response no_dacite describe format echo id_1 dict_type
      (some (response_text (Response.server_lost id_1 dead)))
    ≡ err (
        server_lost_error echo
          (str (
            codes "server "
            ++ (dead ++ codes " stopped heartbeating while processing this request")))
          id_1
          (str dead))
read_lost_example =
    read_lost no_dacite describe format echo id_1 id_1 dead dict_type (omega arith) (omega arith)
