-- ===== src/Examples/Wire.antt =====
-- Runs of the theorems on texts, envelopes and keys.
use anycall.Prelude.{◌≡◌, refl, arith}
use anycall.Text.{codes}
use anycall.Json.{str}
use anycall.Errors.{ok, ◌>>=◌}
use anycall.Model.Response
use anycall.Serialization.{PyType, request_class, request, response, serialize, deserialize}
use anycall.Serialization.Wire.{request_wire, response_wire}
use anycall.Client.Decode.{response_type}
use anycall.Examples.{id_1, dead, a_request, no_dacite}

abbrev wire_type : PyType
wire_type = record { ident = 2; name = codes "AnyCallRequest"; kind = request_class }

request_wire_example :
    (serialize (request a_request) >>= λ text. deserialize no_dacite (str text) wire_type)
    ≡ ok (request a_request)
request_wire_example =
    request_wire no_dacite wire_type a_request refl (omega arith, omega arith, omega arith)

response_wire_example :
    (serialize (response (Response.server_lost id_1 dead)) >>= λ text.
    deserialize no_dacite (str text) response_type)
    ≡ ok (response (Response.server_lost id_1 dead))
unfolding Response.server_lost
response_wire_example =
    response_wire no_dacite response_type (Response.server_lost id_1 dead) refl (record {
      request_id = omega arith;
      payload = tt;
      error_msg = omega arith;
      lost_server = omega arith;
    })
