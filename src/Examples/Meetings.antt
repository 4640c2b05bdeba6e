-- ===== src/Examples/Meetings.antt =====
-- Runs of the theorems on whole calls and on the sample programs.
use anycall.Prelude.{◌≡◌, refl, arith, none, some, [], ◌∷◌}
use anycall.Prelude.Int.{at_least, sub_ℕ}
use anycall.Text.{Text, codes, ◌==◌}
use anycall.Assoc.{lookup}
use anycall.Json.{obj, str}
use anycall.Json.Parse.{loads}
use anycall.Json.RoundTrip.{Writable, loads-dumps, dumps-IsText}
use anycall.Errors.{type_error, ok, err}
use anycall.Model.Request
use anycall.Serialization.{Dacite, plain, instance_of}
use anycall.Serialization.Wire.{request_text, to_dict-Writable_request}
use anycall.Queues.{inflight_key}
use anycall.Redis.Memory.{memory, empty_memory, stored}
use anycall.Exec.{alone}
use anycall.Server.Registration.{Member, context, annotated}
use anycall.Client.Call.{raw_call}
use anycall.Client.Decode.{dict_type}
use anycall.Protocol.Called.{Served, IsUnused, request_of, meets, raw_call_comes_back}
use anycall.Programs.Consumer.{expected, run_examples}
use anycall.Programs.Consumer.Offline.{
  examples_run_offline, absent_text, duplicate_text, registered_here,
}
use anycall.Programs.Consumer.Sample.{Builds, sample, argument-Writable}
use anycall.Programs.Consumer.Online.{raw, text_used, example, examples_pass_online}
use anycall.Examples.{
  echo, id_1, live, point, point-Writable, crashed, a_client, no_dacite, describe, format,
}

abbrev id_9 : Text
id_9 = codes "r9"

-- A server whose method returns its argument.
abbrev echo_member : Member
echo_member = record {
  supply_method_name = some echo;
  supply_max_concurrency = 1;
  parameters = context ∷ annotated dict_type ∷ [];
  method = λ context argument. ok argument;
}

abbrev echo_call : Served
echo_call = record {
  server_id = live;
  name = echo;
  member = echo_member;
  parameter_type = dict_type;
  uuid = id_9;
  argument = point;
  result = point;
}

decoded :
    (c : Served)
    → Writable (str c.uuid)
    → Writable (str c.name)
    → Writable c.argument
    → loads (request_text (request_of c)) ≡ some (Request.to_dict (request_of c))
unfolding Request.create
decoded c named for_method sent =
    loads-dumps (Request.to_dict (request_of c))
      (to_dict-Writable_request (request_of c) (named, for_method, dumps-IsText c.argument sent))

echo_call-IsUnused : IsUnused memory echo_call crashed
unfolding lookup ◌==◌
echo_call-IsUnused = record { no_requests = refl; no_response = refl; no_owner = refl }

raw_call_comes_back_example :
    let (r, w) =
      raw_call memory no_dacite describe format 1 echo
        (plain point)
        none
        id_9
        (meets memory no_dacite describe format echo_call crashed 7 3 a_client) in
    (r ≡ ok (plain point))
    × ((k : Text) → (stored w.redis).list k ≡ (stored crashed).list k)
    × ((id : Text) → (stored w.redis).hash inflight_key id ≡ (stored crashed).hash inflight_key id)
unfolding lookup ◌==◌ at_least sub_ℕ
raw_call_comes_back_example =
    raw_call_comes_back memory no_dacite describe format echo_call 0 2 7 3 crashed a_client
      echo_call-IsUnused refl (decoded echo_call (omega arith) (omega arith) point-Writable)
      (omega arith) refl (omega arith) (omega arith) point-Writable point-Writable refl refl
      (omega arith) refl

-- A `dacite` that builds an instance of any dict.
abbrev any_dacite : Dacite
any_dacite t (obj d) = ok (instance_of t d)
any_dacite t _ = err type_error

any_dacite-Builds : Builds any_dacite
any_dacite-Builds = record { builds_request = λ text. refl; builds_sentiment = λ text label. refl }

abbrev sample_raw : Served
sample_raw = sample live id_9 (text_used raw)

sample_raw-IsUnused : IsUnused memory sample_raw crashed
unfolding lookup ◌==◌
sample_raw-IsUnused = record { no_requests = refl; no_response = refl; no_owner = refl }

examples_pass_online_example :
    let (r, w) =
      example memory any_dacite describe format raw 1 id_9
        (meets memory any_dacite describe format sample_raw crashed 7 3 a_client) in
    (r ≡ ok tt)
    × ((k : Text) → (stored w.redis).list k ≡ (stored crashed).list k)
    × ((id : Text) → (stored w.redis).hash inflight_key id ≡ (stored crashed).hash inflight_key id)
unfolding lookup ◌==◌ at_least sub_ℕ
examples_pass_online_example =
    examples_pass_online memory any_dacite describe format raw live id_9 0 2 7 3 crashed a_client
      any_dacite-Builds sample_raw-IsUnused refl (omega arith)
      (decoded sample_raw (omega arith) (omega arith)
        (argument-Writable (text_used raw) (omega arith)))
      refl (omega arith)

examples_run_offline_example :
    run_examples memory no_dacite describe format 1 id_1 id_1 id_9 id_9
      (alone (empty_memory 5) 7 a_client)
    ≡ (
      ok (expected absent_text, expected duplicate_text),
      alone (empty_memory 5) 7 (registered_here 7),
    )
examples_run_offline_example =
    examples_run_offline memory no_dacite describe format 1 (empty_memory 5) 7 refl id_1 id_1 id_9
      id_9 a_client
