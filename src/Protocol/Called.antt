-- ===== src/Protocol/Called.antt =====
-- A whole call: what a client pushes, what a server makes of it in one round and one job, and what
-- the client reads.
mod Traces
mod Setting
mod Through
pub use Setting.{Served, request_of, answer_of, IsUnused, serve, meets}
pub use Through.{call_through}
use anycall.Prelude.{ℕ, suc, ◌<◌, ◌≡◌, refl, ap, ◌∙◌, false, none, some, [], ◌∷◌}
use anycall.Text.{Text, ◌==◌}
use anycall.Json.{Json, str}
use anycall.Json.Print.{dumps}
use anycall.Json.RoundTrip.{Writable}
use anycall.Errors.{Exn, ok}
use anycall.Model.Request
use anycall.Model.Request.{AnyCallRequest}
use anycall.Model.Response
use anycall.Model.Response.{AnyCallResponse}
use anycall.Serialization.{Dacite, PyType, Object, serialize}
use anycall.Serialization.Wire.{request_text, response_text}
use anycall.Queues.{
  inflight_key, request_queue, response_queue, heartbeat_key, heartbeat_ttl_seconds,
}
use anycall.Prelude.Int.{sub_ℕ}
use anycall.Redis.{Redis}
use anycall.Exec.{World, alone}
use anycall.Adapter.{micros}
use anycall.Adapter.Acquire.{id_of, take_spec}
use anycall.Server.Answering.{answered_with}
use anycall.Server.Registration.{Member}
use anycall.Server.Invoke.{run_method}
use anycall.Server.Requests.{or_error}
use anycall.Server.EndToEnd.{created_request-read}
use anycall.Server.Served.{serving, handler_of, job_of, round_and_work, round_answers}
use anycall.Client.{Client}
use anycall.Client.Call.{call_impl}
use anycall.Client.Decode.{read_response}
use anycall.Client.Prompt.{quiet, busy, calling, published, prompt_call}
use anycall.Json.{obj, get}
use anycall.Adapter.{string_id}
use anycall.Serialization.{plain, other_class}
use anycall.Client.Call.{raw_call}
use anycall.Client.Decode.{dict_type}
use anycall.Client.Answers.{read_success}
use anycall.Server.EndToEnd.{method_runs}
use anycall.Text.Equality.{eq_self}
use anycall.Protocol.Called.Traces.{
  without_response, at_response, response_there, lists_back, owners_back, contents-published,
  contents-collected,
}

module _ (R : Redis) (dacite : Dacite) (describe : Exn → Text) (format : Json → Text) where
  open R use {State, time, zcount, contents, cjson_decode}

  -- A whole call through Redis: a client that counts a live server pushes its request, the server
  -- makes of it one round of its read loop and one job before the client's wait is answered, and
  -- the raw call returns the JSON value that the method returned. Afterwards every list and every
  -- in-flight owner in Redis is what it was before. The server has registered this method alone,
  -- with a cap of at least one, and no cap of its own; the method's parameter is no dataclass;
  -- texts and values are ones that JSON carries, the uuid is not empty, and the script's decoder
  -- reads the request as it was written; the client has no limit of the depth; the keys of the call
  -- held nothing, nothing is cut off and nobody else interferes.
  pub raw_call_comes_back :
      (c : Served) (rounds servers clock elapsed : ℕ) (s : State) (self : Client)
      → IsUnused R c s
      → (c.uuid == []) ≡ false
      → cjson_decode (request_text (request_of c)) ≡ some (Request.to_dict (request_of c))
      → 0 < c.member.supply_max_concurrency
      → c.parameter_type.kind ≡ other_class
      → Writable (str c.uuid)
      → Writable (str c.name)
      → Writable c.argument
      → Writable c.result
      → c.member.method
          (record { request_id = str c.uuid; method_name = str c.name })
          (plain c.argument)
        ≡ ok (plain c.result)
      → zcount heartbeat_key (sub_ℕ (time s) (micros heartbeat_ttl_seconds)) s ≡ servers
      → 0 < servers
      → self.default_max_queue_depth ≡ none
      → let (r, w) =
          raw_call R dacite describe format
            (suc rounds)
            c.name
            (plain c.argument)
            none
            c.uuid
            (meets R dacite describe format c s clock elapsed self) in
        (r ≡ ok (plain c.result))
        × ((k : Text) → (contents w.redis).list k ≡ (contents s).list k)
        × ((id : Text)
            → (contents w.redis).hash inflight_key id ≡ (contents s).hash inflight_key id)
  unfolding raw_call serialize Request.create
  raw_call_comes_back c rounds servers clock elapsed s self unused some_id decoded places kind named
        for_method sent returned returns alive some_alive unlimited =
      call_through R dacite describe format c s unused some_id decoded places named for_method sent
        (method_runs dacite describe format R (handler_of c.member c.parameter_type) c.uuid c.name
          c.argument c.result kind sent returns)
        (plain c.argument) (plain c.result) dict_type rounds servers clock elapsed self refl alive
        some_alive unlimited
        (read_success dacite describe format c.name c.uuid (str c.uuid) c.result named returned)
