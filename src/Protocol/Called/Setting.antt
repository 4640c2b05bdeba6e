-- ===== src/Protocol/Called/Setting.antt =====
-- A call and the server that takes it: their data, and what the server does.
use anycall.Prelude.{ℕ, ◌≡◌, none, some, [], ◌∷◌}
use anycall.Text.{Text, ◌==◌}
use anycall.Json.{Json, str}
use anycall.Json.Print.{dumps}
use anycall.Errors.{Exn}
use anycall.Model.Request
use anycall.Model.Request.{AnyCallRequest}
use anycall.Model.Response
use anycall.Model.Response.{AnyCallResponse}
use anycall.Serialization.{Dacite, PyType}
use anycall.Serialization.Wire.{request_text}
use anycall.Queues.{inflight_key, request_queue, response_queue}
use anycall.Redis.{Redis}
use anycall.Exec.{World, alone}
use anycall.Adapter.Acquire.{id_of}
use anycall.Server.Registration.{Member}
use anycall.Server.Served.{serving, round_and_work}
use anycall.Client.{Client}
use anycall.Client.Prompt.{quiet, busy, calling}
use anycall.Json.{get}
use anycall.Adapter.{string_id}

-- A server with one method, and a call of it.
pub record Served : Type 0 where
  pub server_id : Text
  pub name : Text
  pub member : Member
  pub parameter_type : PyType
  pub uuid : Text
  pub argument : Json
  pub result : Json

abbrev pub request_of : Served → AnyCallRequest
request_of c = Request.create c.uuid c.name (dumps c.argument)

abbrev pub answer_of : Served → AnyCallResponse
answer_of c = Response.success (str c.uuid) (dumps c.result)

-- The keys of the call hold nothing yet.
pub record IsUnused (R : Redis) (c : Served) (s : R.State) : Type 0 where
  pub no_requests : (R.contents s).list (request_queue c.name) ≡ []
  pub no_response : (R.contents s).list (response_queue c.uuid) ≡ []
  pub no_owner : (R.contents s).hash inflight_key c.uuid ≡ none

module _ (R : Redis) (dacite : Dacite) (describe : Exn → Text) (format : Json → Text) where
  open R use {State, cjson_decode}

  -- What the server does: a round of its read loop, and the job that this puts in line.
  abbrev pub serve : Served → State → State
  serve c s =
      (round_and_work dacite describe format R 0
        (alone s 0 (serving c.server_id c.name c.member c.parameter_type))).redis

  -- A caller that finds a server alive, and which the server serves before it waits.
  abbrev pub meets : Served → State → ℕ → ℕ → Client → World State Client
  meets c s clock elapsed self =
      calling R s clock
        (quiet elapsed ∷ quiet elapsed ∷ quiet elapsed ∷ busy elapsed (serve c) ∷ []) self

  -- The request's id, as the script reads it.
  pub id_read :
      (c : Served)
      → cjson_decode (request_text (request_of c)) ≡ some (Request.to_dict (request_of c))
      → id_of R (request_text (request_of c)) ≡ some c.uuid
  unfolding string_id Request.to_dict Request.create get ◌==◌
  id_read c decoded = rw decoded
