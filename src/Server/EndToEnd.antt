-- ===== src/Server/EndToEnd.antt =====
-- One call through `_process_request` of server.py and the reading half of `_call_impl` of
-- client.py.
use anycall.Prelude.{ℕ, ◌≡◌, refl, ap, ◌∙◌, some}
use anycall.Text.{Text}
use anycall.Json.{Json, str}
use anycall.Json.Print.{dumps}
use anycall.Json.RoundTrip.{Writable, loads-dumps, dumps-IsText}
use anycall.Errors.{Exn, ok}
use anycall.Model.Request
use anycall.Model.Request.{AnyCallRequest}
use anycall.Model.Response
use anycall.Serialization.{Dacite, other_class, plain, request, serialize, deserialize}
use anycall.Serialization.Wire.{request_text, response_text, request_wire}
use anycall.Redis.{Redis}
use anycall.Exec.{alone}
use anycall.Server.{MethodHandler, Server}
use anycall.Server.Invoke.{request_type, read_request, run_method}
use anycall.Server.Requests.{or_error, process_request}
use anycall.Server.Answering.{answered_with, Absent, request_stored}
use anycall.Client.Decode.{read_response, dict_type}
use anycall.Client.Answers.{read_success}

module _ (dacite : Dacite) (describe : Exn → Text) (format : Json → Text) (R : Redis) where
  open R use {State, contents}

  -- The request that a client creates reads as it was created.
  pub created_request-read :
      (uuid method_name : Text) (v : Json)
      → Writable (str uuid)
      → Writable (str method_name)
      → Writable v
      → read_request dacite (request_text (Request.create uuid method_name (dumps v)))
        ≡ ok (record {
          request_id = str uuid;
          method_name = str method_name;
          payload = str (dumps v);
        })
  unfolding read_request serialize Request.create
  created_request-read uuid method_name v named for_method sent =
      let r : AnyCallRequest = Request.create uuid method_name (dumps v) in
      let wire : deserialize dacite (str (request_text r)) request_type ≡ ok (request r) =
        request_wire dacite request_type r refl (named, for_method, dumps-IsText v sent) in
      rw wire

  pub method_runs :
      (handler : MethodHandler) (uuid method_name : Text) (v out : Json)
      → handler.parameter_type.kind ≡ other_class
      → Writable v
      → handler.method (record { request_id = str uuid; method_name = str method_name }) (plain v)
        ≡ ok (plain out)
      → run_method dacite handler
          (record { request_id = str uuid; method_name = str method_name; payload = str (dumps v) })
        ≡ ok (Response.success (str uuid) (dumps out))
  unfolding run_method deserialize serialize
  method_runs handler uuid method_name v out kind sent returns =
      rw (loads-dumps v sent, kind, returns)

  -- Over a working connection, for a method whose parameter is no dataclass and that returns a JSON
  -- value for the argument: the worker that processes the request a client creates writes the
  -- success response of that value on the queue of the call's uuid, and the client's reading of
  -- that response gives its caller the value. The texts and values are ones that JSON carries, and
  -- the uuid is not in the set of ids.
  pub call_comes_back :
      (handler : MethodHandler) (uuid method_name acquired_id : Text) (v out : Json) (s : State)
      (clock : ℕ) (self : Server)
      → handler.parameter_type.kind ≡ other_class
      → Writable (str uuid)
      → Writable (str method_name)
      → Writable v
      → Writable out
      → handler.method (record { request_id = str uuid; method_name = str method_name }) (plain v)
        ≡ ok (plain out)
      → Absent (str uuid) self.in_flight_request_ids
      → let answer = Response.success (str uuid) (dumps out) in
        let (r, w) =
          process_request dacite describe format R handler
            (request_text (Request.create uuid method_name (dumps v)))
            acquired_id
            (alone s clock self) in
        (r ≡ ok tt)
        × (contents w.redis ≡ answered_with uuid answer acquired_id (contents s))
        × (read_response dacite describe format method_name uuid dict_type
              (some (response_text answer))
            ≡ ok (plain out))
  unfolding or_error
  call_comes_back handler uuid method_name acquired_id v out s clock self kind named for_method sent
        returned returns absent =
      let (done, ids, stored) =
        request_stored dacite describe format R handler
          (request_text (Request.create uuid method_name (dumps v))) acquired_id uuid
          (str method_name) (str (dumps v)) s clock self
          (created_request-read uuid method_name v named for_method sent) absent in
      (
        done,
        stored
            ∙ ap (λ x. answered_with uuid (or_error describe (str uuid) x) acquired_id (contents s))
                (method_runs handler uuid method_name v out kind sent returns),
        read_success dacite describe format method_name uuid (str uuid) out named returned,
      )
