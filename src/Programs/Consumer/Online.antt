-- ===== src/Programs/Consumer/Online.antt =====
-- The examples of the sample consumer with the sample supplier.
use anycall.Prelude.{ℕ, suc, ◌<◌, ◌≡◌, refl, arith, false, none, some, []}
use anycall.Prelude.Int.{sub_ℕ}
use anycall.Text.{Text, codes, ◌==◌}
use anycall.Json.{Json, str, get}
use anycall.Json.Print.{dumps}
use anycall.Json.RoundTrip.{Writable}
use anycall.Errors.{Exn, ok}
use anycall.Model.Request
use anycall.Model.Response
use anycall.Serialization.{Dacite, PyType, Object, plain, serialize}
use anycall.Serialization.Wire.{request_text, response_text}
use anycall.Queues.{inflight_key, heartbeat_key, heartbeat_ttl_seconds}
use anycall.Redis.{Redis}
use anycall.Exec.{Exec}
use anycall.Adapter.{micros}
use anycall.Registry
use anycall.Client.{Client}
use anycall.Client.Call.{call, raw_call, call_impl, register_type, resolve_type}
use anycall.Client.Decode.{read_response, dict_type}
use anycall.Client.Answers.{read_success}
use anycall.Core.{make_client}
use anycall.Protocol.Called.{IsUnused, request_of, meets, call_through}
use anycall.Programs.{sentiment_type, text_request, sentiment, text_of, analyze}
use anycall.Programs.Consumer.{
  connect, assert, check_sentiment, check_raw, example_call_with_explicit_type,
  example_call_with_registry, example_raw_call,
}
use anycall.Programs.Consumer.Offline.{new_here, registered_here}
use anycall.Programs.Consumer.Sample.{
  Builds, positive, sample, argument-Writable, positive-Writable, sample_runs, sample_read,
}

-- The examples that call, and the text that each has analyzed.
pub data Example : Type 0 where
  explicit registered raw : Example

abbrev pub text_used : Example → Text
text_used explicit = codes "This is great!"
text_used registered = codes "Absolutely wonderful!"
text_used raw = codes "Looking good!"

module _ (R : Redis) (dacite : Dacite) (describe : Exn → Text) (format : Json → Text) where
  open R use {State, time, zcount, contents, cjson_decode}

  abbrev pub example : Example → ℕ → Text → Exec State Client (Unit {0})
  example explicit rounds uuid =
      example_call_with_explicit_type R dacite describe format rounds uuid
  example registered rounds uuid = example_call_with_registry R dacite describe format rounds uuid
  example raw rounds uuid = example_raw_call R dacite describe format rounds uuid

  -- How each example calls, the type that it wants, and the value that comes back.
  abbrev wanted : Example → PyType
  wanted raw = dict_type
  wanted _ = sentiment_type

  abbrev returned : Example → Object
  returned raw = plain (positive (text_used raw))
  returned e = sentiment (str (text_used e)) (str (codes "positive"))

  abbrev client_of : Example → ℕ → Client
  client_of registered now = registered_here now
  client_of _ now = new_here now

  used-Writable : (e : Example) → Writable (str (text_used e))
  used-Writable explicit = omega arith
  used-Writable registered = omega arith
  used-Writable raw = omega arith

  call_of : (e : Example) → Text → ℕ → Exec State Client Object
  call_of e uuid rounds =
      call_impl R dacite describe format rounds analyze (text_request (str (text_used e)))
        (wanted e) none uuid

  passes :
      (e : Example) (server_id uuid : Text) (rounds clock elapsed : ℕ) (s : State) (self : Client)
      → let world =
          meets R dacite describe format (sample server_id uuid (text_used e)) s clock elapsed in
        let (r, w) = call_of e uuid rounds (world (client_of e clock)) in
        r ≡ ok (returned e) → example e rounds uuid (world self) ≡ (ok tt, w)
  unfolding call_of example_call_with_explicit_type example_call_with_registry example_raw_call
      connect make_client call raw_call resolve_type register_type Registry.register Registry.lookup
      Registry.get check_sentiment check_raw assert text_of get ◌==◌
  passes explicit server_id uuid rounds clock elapsed s self came = rw came
  passes registered server_id uuid rounds clock elapsed s self came = rw came
  passes raw server_id uuid rounds clock elapsed s self came = rw came

  reads_back :
      (e : Example) (uuid : Text)
      → Builds dacite
      → Writable (str uuid)
      → read_response dacite describe format analyze uuid
          (wanted e)
          (some (response_text (Response.success (str uuid) (dumps (positive (text_used e))))))
        ≡ ok (returned e)
  reads_back explicit uuid builds named =
      sample_read dacite builds describe format uuid (text_used explicit) named
        (used-Writable explicit)
  reads_back registered uuid builds named =
      sample_read dacite builds describe format uuid (text_used registered) named
        (used-Writable registered)
  reads_back raw uuid builds named =
      read_success dacite describe format analyze uuid (str uuid) (positive (text_used raw)) named
        (positive-Writable (text_used raw) (used-Writable raw))

  client_of_unlimited : (e : Example) (now : ℕ) → (client_of e now).default_max_queue_depth ≡ none
  unfolding make_client
  client_of_unlimited explicit now = refl
  client_of_unlimited registered now = refl
  client_of_unlimited raw now = refl

  -- Each of the consumer's three examples that call ends with its assertions passed if the sample
  -- supplier serves its call, and leaves every list and every in-flight owner in Redis as they
  -- were. dacite builds the two dataclasses from their fields; the uuid is a text that JSON carries
  -- and not empty, and the script's decoder reads the request as it was written; the keys of the
  -- call held nothing, some server is alive, nothing is cut off and nobody else interferes.
  pub examples_pass_online :
      (e : Example) (server_id uuid : Text) (rounds servers clock elapsed : ℕ) (s : State)
      (self : Client)
      → let c = sample server_id uuid (text_used e) in
        Builds dacite
        → IsUnused R c s
        → (uuid == []) ≡ false
        → Writable (str uuid)
        → cjson_decode (request_text (request_of c)) ≡ some (Request.to_dict (request_of c))
        → zcount heartbeat_key (sub_ℕ (time s) (micros heartbeat_ttl_seconds)) s ≡ servers
        → 0 < servers
        → let (r, w) =
            example e (suc rounds) uuid (meets R dacite describe format c s clock elapsed self) in
          (r ≡ ok tt)
          × ((k : Text) → (contents w.redis).list k ≡ (contents s).list k)
          × ((id : Text)
              → (contents w.redis).hash inflight_key id ≡ (contents s).hash inflight_key id)
  unfolding call_of serialize
  examples_pass_online e server_id uuid rounds servers clock elapsed s self builds unused some_id
        named decoded alive some_alive =
      let c = sample server_id uuid (text_used e) in
      let (came, lists, owners) =
        call_through R dacite describe format c s unused some_id decoded (omega arith) named
          (omega arith) (argument-Writable (text_used e) (used-Writable e))
          (sample_runs dacite builds describe format server_id uuid (text_used e) (used-Writable e))
          (text_request (str (text_used e))) (returned e) (wanted e) rounds servers clock elapsed
          (client_of e clock) refl alive some_alive (client_of_unlimited e clock)
          (reads_back e uuid builds named) in
      rw (passes e server_id uuid (suc rounds) clock elapsed s self came) (refl, lists, owners)
